-- ===== src/SyncWorker/Store.antt =====
-- apps/carpeos-sync-worker/src/index.ts: the tables of the worker, its answers, and the lookups. A
-- JSON column holds the record that it is the text of; columns that no statement reads are left out.
use carpe_os.Common.{
  ℕ, suc, String, Bool, false, ◌&&◌, ◌||◌, Option, none, some, List, [], ◌∷◌, str_eq, if◌then◌else◌,
}
use carpe_os.Schema.{
  CanonicalEvent, ErasureLedgerRecord, OrphanStatus, ProtectedValueMetadata,
  ProtectedValueUploadReceipt, SyncErrorCode, SyncPushResult, SyncPullResult,
}

-- a row of `client_authorizations`
pub record AuthorizationRow : Type 0 where
  pub client_id : String
  pub trust_zone_id : String
  pub token_hash_sha256 : String
  pub is_revoked : Bool

-- a row of `sync_requests`
pub record SyncRequestRow : Type 0 where
  pub trust_zone_id : String
  pub idempotency_key : String
  pub request_fingerprint : String
  pub result_json : SyncPushResult

-- a row of `zone_counters`
pub record CounterRow : Type 0 where
  pub trust_zone_id : String
  pub last_sequence : ℕ

-- a row of `canonical_events`
pub record EventRow : Type 0 where
  pub trust_zone_id : String
  pub zone_sequence : ℕ
  pub event_id : String
  pub recorded_time_start : String
  pub event_json : CanonicalEvent

-- a row of `erasure_ledger`
pub record ErasureRow : Type 0 where
  pub trust_zone_id : String
  pub zone_sequence : ℕ
  pub erasure_id : String
  pub requested_at : String
  pub erasure_json : ErasureLedgerRecord

-- a row of `protected_value_uploads`
pub record ProtectedUploadRow : Type 0 where
  pub protected_value_id : String
  pub trust_zone_id : String
  pub object_key : String
  pub original_ciphertext_digest_algorithm : String
  pub original_ciphertext_digest_value : String
  pub original_ciphertext_size_bytes : ℕ
  pub ciphertext_nonce : String
  pub ciphertext_auth_tag : String
  pub nonce_ref : Option String
  pub tag_ref : Option String
  pub vault_ref : String
  pub key_ref : String
  pub wrapped_device_key : String
  pub upload_receipt_id : String
  pub uploaded_at : String
  pub status : OrphanStatus

-- a row of `protected_value_links`
pub record LinkRow : Type 0 where
  pub protected_value_id : String
  pub event_id : String

-- an object of the bucket: its key, its bytes, and the metadata that is read from it
pub record StoredObject : Type 0 where
  pub object_key : String
  pub bytes : List ℕ
  pub metadata : Option ProtectedValueMetadata

pub record Env : Type 0 where
  pub authorizations : List AuthorizationRow
  pub requests : List SyncRequestRow
  pub counters : List CounterRow
  pub events : List EventRow
  pub erasures : List ErasureRow
  pub uploads : List ProtectedUploadRow
  pub links : List LinkRow
  pub objects : List StoredObject

pub data Body : Type 0 where
  push_result : SyncPushResult → Body
  pull_result : SyncPullResult → Body
  receipt : ProtectedValueUploadReceipt → Body
  error : SyncErrorCode → String → Option String → Body

pub record Response : Type 0 where
  pub status : ℕ
  pub body : Body

abbrev pub json_response : Body → ℕ → Response
json_response body status = record { status = status; body = body }

abbrev pub json_error : ℕ → SyncErrorCode → String → Option String → Response
json_error status code message ref = json_response (error code message ref) status

module _ (zone : String) where
  -- SELECT … FROM sync_requests WHERE trust_zone_id = ?1 AND idempotency_key = ?2
  unfoldable pub get_sync_request : String → List SyncRequestRow → Option SyncRequestRow
  get_sync_request key [] = none
  get_sync_request key (r ∷ rs) =
      if str_eq r.trust_zone_id zone && str_eq r.idempotency_key key
      then some r
      else get_sync_request key rs

  -- SELECT last_sequence FROM zone_counters WHERE trust_zone_id = ?1
  unfoldable pub last_sequence : List CounterRow → ℕ
  last_sequence [] = 0
  last_sequence (c ∷ cs) = if str_eq c.trust_zone_id zone then c.last_sequence else last_sequence cs

  -- INSERT INTO zone_counters … ON CONFLICT DO UPDATE SET last_sequence = last_sequence + 1
  unfoldable pub next_sequence : List CounterRow → List CounterRow
  next_sequence [] = record { trust_zone_id = zone; last_sequence = 1 } ∷ []
  next_sequence (c ∷ cs) =
      if str_eq c.trust_zone_id zone
      then record c { last_sequence = suc c.last_sequence } ∷ cs
      else c ∷ next_sequence cs

  -- PRIMARY KEY (trust_zone_id, event_id), UNIQUE (trust_zone_id, zone_sequence)
  unfoldable pub has_event : String → List EventRow → Bool
  has_event id [] = false
  has_event id (r ∷ rs) = (str_eq r.trust_zone_id zone && str_eq r.event_id id) || has_event id rs

  unfoldable pub has_erasure : String → List ErasureRow → Bool
  has_erasure id [] = false
  has_erasure id (r ∷ rs) =
      (str_eq r.trust_zone_id zone && str_eq r.erasure_id id) || has_erasure id rs

  -- SELECT * FROM protected_value_uploads WHERE protected_value_id = ?1 AND trust_zone_id = ?2
  unfoldable pub get_protected_upload : String → List ProtectedUploadRow → Option ProtectedUploadRow
  get_protected_upload id [] = none
  get_protected_upload id (r ∷ rs) =
      if str_eq r.protected_value_id id && str_eq r.trust_zone_id zone
      then some r
      else get_protected_upload id rs

-- PRIMARY KEY (protected_value_id, event_id)
unfoldable pub has_link : String → String → List LinkRow → Bool
has_link value event [] = false
has_link value event (r ∷ rs) =
    (str_eq r.protected_value_id value && str_eq r.event_id event) || has_link value event rs

-- `env.PROTECTED_VALUES.head(key)`
unfoldable pub head_object : String → List StoredObject → Option StoredObject
head_object key [] = none
head_object key (o ∷ os) = if str_eq o.object_key key then some o else head_object key os
