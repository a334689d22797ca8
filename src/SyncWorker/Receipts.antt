-- ===== src/SyncWorker/Receipts.antt =====
-- apps/carpeos-sync-worker/src/index.ts: what a push is checked for. Who may push, that it holds one
-- record of its zone, and that a protected value of its event has been uploaded.
use carpe_os.Common.{
  String, Bool, true, false, not, ◌&&◌, ◌||◌, Option, none, some, List, [], ◌∷◌, str_eq, ltb, ◌+◌,
  ◌==◌, length, if◌then◌else◌,
}
use carpe_os.Common.Code.{starts_with, text_drop, text_length, hex_lower}
use carpe_os.Schema.{
  BlobAlgorithm, aes_256_gcm, ProtectedValueRef, EventPayload, protected_content, CanonicalEvent,
  ErasureLedgerRecord, ProtectedValueUploadReceipt, ProtectedValueMetadata, SyncErrorItem,
  SyncPushRequest, invalid_schema, unauthorized, protected_value_missing,
  protected_value_digest_mismatch,
}
use carpe_os.SyncWorker.Store.{
  AuthorizationRow, ProtectedUploadRow, StoredObject, Env, Response, json_error,
  get_protected_upload, head_object,
}

is_aes : BlobAlgorithm → Bool
is_aes aes_256_gcm = true
is_aes _ = false

unfoldable pub ref_of_payload : EventPayload → Option ProtectedValueRef
unfolding is_aes
ref_of_payload (protected_content r others) =
    if is_aes r.encrypted_blob.algorithm then some r else none
ref_of_payload _ = none

unfoldable pub get_protected_value_ref : CanonicalEvent → Option ProtectedValueRef
get_protected_value_ref e =
    if str_eq e.event_type "EvidenceArtifact" then ref_of_payload e.payload else none

-- a row of the client and zone that holds for the hash
unfoldable pub is_authorized : (client zone hash : String) → List AuthorizationRow → Bool
is_authorized client zone hash [] = false
is_authorized client zone hash (r ∷ rs) =
    (str_eq r.client_id client
      && str_eq r.trust_zone_id zone
      && not r.is_revoked
      && str_eq (hex_lower hash) (hex_lower r.token_hash_sha256))
    || is_authorized client zone hash rs

unfoldable pub is_known : (client hash : String) → List AuthorizationRow → Bool
is_known client hash [] = false
is_known client hash (r ∷ rs) =
    (str_eq r.client_id client && str_eq r.token_hash_sha256 hash && not r.is_revoked)
    || is_known client hash rs

module _ (sha256_hex : String → String) where
  unfoldable pub authorize_token :
      (client zone credential : String) → List AuthorizationRow → Option Response
  authorize_token client zone credential rows =
      if ltb (text_length credential) 32
      then some (json_error 401 unauthorized "Bearer token is too short" none)
      else if is_authorized client zone (sha256_hex credential) rows
      then none
      else if is_known client (sha256_hex credential) rows
      then some
          (json_error 403 unauthorized "Bearer token is not authorized for this trust zone" none)
      else some (json_error 401 unauthorized "Bearer token is invalid" none)

  -- the answer of a request that may not go on
  unfoldable pub authorize :
      (authorization : Option String) (client zone : String)
      → List AuthorizationRow
      → Option Response
  unfolding authorize_token
  authorize none client zone rows = some (json_error 401 unauthorized "Missing bearer token" none)
  authorize (some header) client zone rows =
      if starts_with header "Bearer "
      then authorize_token client zone (text_drop 7 header) rows
      else some (json_error 401 unauthorized "Missing bearer token" none)

abbrev pub sync_error_item : SyncErrorItem → Response
sync_error_item e = json_error 422 e.code e.message e.ref_id

-- `request.events[0]`
abbrev pub first {ℓ} : {A : Type ℓ} → List A → Option A
first [] = none
first (x ∷ xs) = some x

one_record_zone : String → Option CanonicalEvent → Option ErasureLedgerRecord → Option SyncErrorItem
one_record_zone zone (some e) x =
    if str_eq e.trust_zone_id zone
    then none
    else some (record {
      code = unauthorized;
      message = "Event trust zone differs from push trust zone";
      ref_id = some e.event_id;
    })
one_record_zone zone none (some x) =
    if str_eq x.trust_zone_id zone
    then none
    else some (record {
      code = unauthorized;
      message = "Erasure trust zone differs from push trust zone";
      ref_id = some x.erasure_id;
    })
one_record_zone zone none none = none

unfoldable pub validate_single_record_push : SyncPushRequest → Option SyncErrorItem
unfolding one_record_zone
validate_single_record_push request =
    if length request.events + length request.erasures == 1
    then one_record_zone request.trust_zone_id (first request.events) (first request.erasures)
    else some (record {
      code = invalid_schema;
      message = "Push requests must contain exactly one event or exactly one erasure";
      ref_id = none;
    })

unfoldable pub same_option : Option String → Option String → Bool
same_option none none = true
same_option (some s) (some t) = str_eq s t
same_option _ _ = false

-- the algorithm and the encoding are fixed by the types
unfoldable pub metadata_matches_stored_upload : ProtectedValueMetadata → ProtectedUploadRow → Bool
unfolding same_option
metadata_matches_stored_upload m stored =
    str_eq m.protected_value_id stored.protected_value_id
    && str_eq m.trust_zone_id stored.trust_zone_id
    && str_eq m.object_key stored.object_key
    && str_eq m.vault_ref stored.vault_ref
    && str_eq m.ciphertext_nonce stored.ciphertext_nonce
    && str_eq m.ciphertext_auth_tag stored.ciphertext_auth_tag
    && same_option m.nonce_ref stored.nonce_ref
    && same_option m.tag_ref stored.tag_ref
    && str_eq m.key_ref stored.key_ref
    && str_eq m.wrapped_device_key stored.wrapped_device_key
    && str_eq (hex_lower m.original_ciphertext_digest.value) stored.original_ciphertext_digest_value
    && (m.original_ciphertext_size_bytes == stored.original_ciphertext_size_bytes)

unfoldable pub receipt_matches :
    SyncPushRequest → ProtectedValueRef → ProtectedValueUploadReceipt → Bool
receipt_matches request r given =
    str_eq given.trust_zone_id request.trust_zone_id
    && str_eq given.protected_value_id r.protected_value_id
    && str_eq (hex_lower given.original_ciphertext_digest.value)
        (hex_lower r.encrypted_blob.digest.value)
    && (given.original_ciphertext_size_bytes == r.encrypted_blob.size_bytes)

unfoldable pub stored_matches : ProtectedValueRef → ProtectedUploadRow → Bool
unfolding same_option
stored_matches r stored =
    str_eq stored.original_ciphertext_digest_value (hex_lower r.encrypted_blob.digest.value)
    && (stored.original_ciphertext_size_bytes == r.encrypted_blob.size_bytes)
    && str_eq stored.vault_ref r.vault_ref
    && str_eq stored.key_ref r.key_ref
    && same_option stored.nonce_ref (some r.encrypted_blob.nonce_ref)
    && same_option stored.tag_ref (some r.encrypted_blob.tag_ref)

abbrev missing_value : ProtectedValueRef → String → Option SyncErrorItem
missing_value r message = some (record {
  code = protected_value_missing;
  message = message;
  ref_id = some r.protected_value_id;
})

abbrev mismatch : ProtectedValueRef → String → Option SyncErrorItem
mismatch r message = some (record {
  code = protected_value_digest_mismatch;
  message = message;
  ref_id = some r.protected_value_id;
})

unfoldable pub validate_metadata :
    ProtectedValueRef → ProtectedUploadRow → Option ProtectedValueMetadata → Option SyncErrorItem
unfolding metadata_matches_stored_upload
validate_metadata r stored none =
    mismatch r "Protected value object metadata does not match stored receipt"
validate_metadata r stored (some m) =
    if metadata_matches_stored_upload m stored
    then none
    else mismatch r "Protected value object metadata does not match stored receipt"

unfoldable pub validate_object :
    ProtectedValueRef → ProtectedUploadRow → Option StoredObject → Option SyncErrorItem
unfolding validate_metadata
validate_object r stored none = missing_value r "Protected value object is missing"
validate_object r stored (some o) = validate_metadata r stored o.metadata

unfoldable pub validate_stored :
    Env → ProtectedValueRef → Option ProtectedUploadRow → Option SyncErrorItem
unfolding stored_matches validate_object
validate_stored env r none = missing_value r "Protected value upload receipt is missing"
validate_stored env r (some stored) =
    if stored_matches r stored
    then validate_object r stored (head_object stored.object_key env.objects)
    else mismatch r "Stored protected value receipt does not match event protected reference"

unfoldable pub validate_given :
    Env
    → SyncPushRequest
    → ProtectedValueRef
    → Option ProtectedValueUploadReceipt
    → Option SyncErrorItem
unfolding receipt_matches validate_stored
validate_given env request r none = missing_value r "Protected event has no upload receipt"
validate_given env request r (some given) =
    if receipt_matches request r given
    then validate_stored env r
        (get_protected_upload request.trust_zone_id r.protected_value_id env.uploads)
    else mismatch r "Protected value receipt does not match event protected reference"

-- nothing to check where the event has no protected value
unfoldable pub validate_protected_receipt :
    Env → SyncPushRequest → Option ProtectedValueRef → Option SyncErrorItem
unfolding validate_given
validate_protected_receipt env request none = none
validate_protected_receipt env request (some r) =
    validate_given env request r (first request.protected_value_receipts)
