-- ===== src/Schema.antt =====
-- packages/schema/src/index.ts: the records that a device and the sync worker exchange. A timestamp
-- is its text. Members that no code here reads are kept as JSON beside the others.
pub mod Texts
use carpe_os.Common.{ℕ, String, Bool, Option, List}
use carpe_os.Json.{Value, Members}

pub record Digest : Type 0 where
  pub algorithm : String
  pub value : String

pub data BlobAlgorithm : Type 0 where
  aes_256_gcm xchacha20_poly1305 : BlobAlgorithm

pub record EncryptedBlob : Type 0 where
  pub algorithm : BlobAlgorithm
  pub nonce_ref : String
  pub tag_ref : String
  pub digest : Digest
  pub size_bytes : ℕ

pub record ProtectedValueRef : Type 0 where
  pub protected_value_id : String
  pub vault_ref : String
  pub key_ref : String
  pub encrypted_blob : EncryptedBlob

-- the payload of an event: one whose `content_ref` is a protected value, with its other members, or
-- any other
pub data EventPayload : Type 0 where
  protected_content : ProtectedValueRef → Members → EventPayload
  other_payload : Value → EventPayload

pub record CanonicalEvent : Type 0 where
  pub event_id : String
  pub event_type : String
  pub trust_zone_id : String
  pub idempotency_key : String
  pub request_fingerprint : String
  pub recorded_start : String
  pub zone_sequence : Option ℕ
  pub payload : EventPayload
  -- the other members of the trust zone, of the recorded time and of the event
  pub zone_others : Members
  pub time_others : Members
  pub others : Members

pub record ErasureLedgerRecord : Type 0 where
  pub erasure_id : String
  pub trust_zone_id : String
  pub requested_at : String
  pub zone_sequence : Option ℕ
  pub zone_others : Members
  pub others : Members

pub data ReceiptStatus : Type 0 where
  uploaded already_exists : ReceiptStatus

pub record ProtectedValueUploadReceipt : Type 0 where
  pub protected_value_id : String
  pub trust_zone_id : String
  pub object_key : String
  pub original_ciphertext_digest : Digest
  pub original_ciphertext_size_bytes : ℕ
  pub uploaded_at : String
  pub status : ReceiptStatus
  pub upload_receipt_id : String

-- the wrapped key of a device is only passed on: its JSON text
pub record ProtectedValueUploadIntent : Type 0 where
  pub protected_value_id : String
  pub trust_zone_id : String
  pub vault_ref : String
  pub key_ref : String
  pub object_key : String
  pub ciphertext_nonce : String
  pub ciphertext_auth_tag : String
  pub original_ciphertext_digest : Digest
  pub original_ciphertext_size_bytes : ℕ
  pub nonce_ref : Option String
  pub tag_ref : Option String
  pub wrapped_device_key : String

pub data OrphanStatus : Type 0 where
  linked orphaned : OrphanStatus

pub record ProtectedValueMetadata : Type 0 where
  pub protected_value_id : String
  pub trust_zone_id : String
  pub object_key : String
  pub vault_ref : String
  pub ciphertext_nonce : String
  pub ciphertext_auth_tag : String
  pub original_ciphertext_digest : Digest
  pub original_ciphertext_size_bytes : ℕ
  pub nonce_ref : Option String
  pub tag_ref : Option String
  pub key_ref : String
  pub wrapped_device_key : String
  pub linked_event_ids : List String
  pub orphan_status : OrphanStatus
  pub uploaded_at : String

pub data SyncErrorCode : Type 0 where
  invalid_schema replay_notice key_conflict unauthorized not_found : SyncErrorCode
  protected_value_missing protected_value_digest_mismatch internal_error : SyncErrorCode

pub record SyncErrorItem : Type 0 where
  pub code : SyncErrorCode
  pub message : String
  pub ref_id : Option String

pub record SyncPushRequest : Type 0 where
  pub request_id : String
  pub client_id : String
  pub trust_zone_id : String
  pub idempotency_key : String
  pub request_fingerprint : String
  pub protected_value_receipts : List ProtectedValueUploadReceipt
  pub events : List CanonicalEvent
  pub erasures : List ErasureLedgerRecord

pub data PushStatus : Type 0 where
  accepted replay idempotency_conflict partial_error : PushStatus

pub record ZoneSequence : Type 0 where
  pub trust_zone_id : String
  pub last_sequence : ℕ

pub record SyncPushResult : Type 0 where
  pub request_id : String
  pub status : PushStatus
  pub accepted_event_ids : List String
  pub accepted_erasure_ids : List String
  pub zone_sequences : List ZoneSequence
  pub replay_of : Option String
  pub conflict_with : Option String
  pub errors : List SyncErrorItem

pub record SyncPullRequest : Type 0 where
  pub client_id : String
  pub trust_zone_id : String
  pub after_sequence : Option ℕ
  pub recorded_after : Option String
  pub limit : ℕ

pub record SyncPullResult : Type 0 where
  pub events : List CanonicalEvent
  pub erasures : List ErasureLedgerRecord
  pub cursor : Option String
  pub after_sequence : Option ℕ
  pub has_more : Bool
