-- ===== src/SyncWorker/Downloads.antt =====
-- apps/carpeos-sync-worker/src/index.ts: the HEAD and the GET of a protected value. A value whose row
-- is lost gets it back from the metadata of its object.
use carpe_os.Common.{
  ℕ, String, Bool, Option, none, some, List, [], ◌∷◌, str_eq, ltb, if◌then◌else◌, Fallible, ok,
  threw,
}
use carpe_os.Common.Text.{◌<>◌}
use carpe_os.Common.Code.{hex_lower, text_length}
use carpe_os.Schema.{
  ProtectedValueUploadIntent, ProtectedValueUploadReceipt, ProtectedValueMetadata, already_exists,
  unauthorized, protected_value_missing, protected_value_digest_mismatch,
}
use carpe_os.Capture.RunLedger.{sort_texts}
use carpe_os.SyncWorker.Store.{
  ProtectedUploadRow, LinkRow, StoredObject, Env, Response, json_error, get_protected_upload,
  head_object,
}
use carpe_os.SyncWorker.Receipts.{authorize}
use carpe_os.SyncWorker.Uploads.{upsert_protected_value_receipt}

-- a request: its headers, and the zone in its query
pub record ReadRequest : Type 0 where
  pub is_head : Bool
  pub authorization : Option String
  pub client_id : Option String
  pub trust_zone_header : Option String
  pub trust_zone_query : Option String
  pub digest_header : Option String

-- `trim` and the hash of the platform
pub record ReadHost : Type 0 where
  pub trim : String → String
  pub sha256_hex : String → String

-- the answer: an error, or the metadata as a header, and with a GET the bytes
pub data ReadAnswer : Type 0 where
  refused : Response → ReadAnswer
  found : ProtectedValueMetadata → Option (List ℕ) → ReadAnswer

-- SELECT event_id FROM protected_value_links WHERE protected_value_id = ?1
unfoldable pub linked_events : String → List LinkRow → List String
linked_events id [] = []
linked_events id (r ∷ rs) =
    let rest = linked_events id rs in
    if str_eq r.protected_value_id id then r.event_id ∷ rest else rest

abbrev pub metadata_from_stored_upload : Env → ProtectedUploadRow → ProtectedValueMetadata
metadata_from_stored_upload env row = record {
  protected_value_id = row.protected_value_id;
  trust_zone_id = row.trust_zone_id;
  object_key = row.object_key;
  vault_ref = row.vault_ref;
  ciphertext_nonce = row.ciphertext_nonce;
  ciphertext_auth_tag = row.ciphertext_auth_tag;
  original_ciphertext_digest = record {
    algorithm = "sha-256";
    value = row.original_ciphertext_digest_value;
  };
  original_ciphertext_size_bytes = row.original_ciphertext_size_bytes;
  nonce_ref = row.nonce_ref;
  tag_ref = row.tag_ref;
  key_ref = row.key_ref;
  wrapped_device_key = row.wrapped_device_key;
  linked_event_ids = sort_texts (linked_events row.protected_value_id env.links);
  orphan_status = row.status;
  uploaded_at = row.uploaded_at;
}

abbrev pub intent_from_metadata : ProtectedValueMetadata → ProtectedValueUploadIntent
intent_from_metadata m = record {
  protected_value_id = m.protected_value_id;
  trust_zone_id = m.trust_zone_id;
  vault_ref = m.vault_ref;
  key_ref = m.key_ref;
  object_key = m.object_key;
  ciphertext_nonce = m.ciphertext_nonce;
  ciphertext_auth_tag = m.ciphertext_auth_tag;
  original_ciphertext_digest = m.original_ciphertext_digest;
  original_ciphertext_size_bytes = m.original_ciphertext_size_bytes;
  nonce_ref = m.nonce_ref;
  tag_ref = m.tag_ref;
  wrapped_device_key = m.wrapped_device_key;
}

abbrev pub upsert_protected_value_receipt_from_metadata :
    Env → ProtectedValueMetadata → Fallible ProtectedValueUploadReceipt × Env
upsert_protected_value_receipt_from_metadata env m =
    upsert_protected_value_receipt env (intent_from_metadata m) already_exists m.uploaded_at

-- a text of more than white space
abbrev pub trimmed : String → Option String
trimmed s = if ltb 0 (text_length s) then some s else none

abbrev pub or_query : (trim : String → String) → Option String → Option String → Option String
or_query trim (some zone) query = some zone
or_query trim none none = none
or_query trim none (some zone) = trimmed (trim zone)

abbrev pub trimmed_option : (trim : String → String) → Option String → Option String
trimmed_option trim none = none
trimmed_option trim (some s) = trimmed (trim s)

unfoldable pub explicit_trust_zone_id : (trim : String → String) → ReadRequest → Option String
explicit_trust_zone_id trim q =
    or_query trim (trimmed_option trim q.trust_zone_header) q.trust_zone_query

abbrev pub key_of_digest : (zone id : String) → Option String → Option String
key_of_digest zone id none = none
key_of_digest zone id (some digest) =
    some ("protected-values/" <> zone <> "/" <> id <> "/" <> hex_lower digest)

-- `stored?.object_key ?? objectKeyFromHeaders(request, protectedValueId)`
abbrev pub object_key_of :
    Option ProtectedUploadRow → (zone id : String) → ReadRequest → Option String
object_key_of (some row) zone id q = some row.object_key
object_key_of none zone id q = key_of_digest zone id q.digest_header

abbrev pub missing : Env → (id message : String) → Fallible ReadAnswer × Env
missing env id message =
    (ok (refused (json_error 404 protected_value_missing message (some id))), env)

abbrev pub invalid_metadata : Env → (id : String) → Fallible ReadAnswer × Env
invalid_metadata env id = (
  ok (
      refused (
        json_error 422 protected_value_digest_mismatch "Protected value object metadata is invalid"
          (some id))),
  env,
)

abbrev pub body_of : Bool → StoredObject → Option (List ℕ)
body_of is_head object = if is_head then none else some object.bytes

abbrev pub after_upsert :
    ReadAnswer → Fallible ProtectedValueUploadReceipt × Env → Fallible ReadAnswer × Env
after_upsert answer (ok given, env) = (ok answer, env)
after_upsert answer (threw m, env) = (threw m, env)

abbrev pub read_found :
    Env
    → ReadRequest
    → Option ProtectedUploadRow
    → StoredObject
    → ProtectedValueMetadata
    → Fallible ReadAnswer × Env
read_found env q (some row) object m =
    (ok (found (metadata_from_stored_upload env row) (body_of q.is_head object)), env)
read_found env q none object m =
    after_upsert (found m (body_of q.is_head object))
      (upsert_protected_value_receipt_from_metadata env m)

unfoldable pub read_metadata :
    Env
    → ReadRequest
    → (zone id : String) → Option ProtectedUploadRow
    → StoredObject
    → Option ProtectedValueMetadata
    → Fallible ReadAnswer × Env
read_metadata env q zone id stored object none = invalid_metadata env id
read_metadata env q zone id stored object (some m) =
    if str_eq m.protected_value_id id
    then (if str_eq m.trust_zone_id zone
        then read_found env q stored object m
        else missing env id "Protected value object was not found for this trust zone")
    else invalid_metadata env id

unfoldable pub read_object :
    Env
    → ReadRequest
    → (zone id : String) → Option ProtectedUploadRow
    → Option StoredObject
    → Fallible ReadAnswer × Env
unfolding read_metadata
read_object env q zone id stored none = missing env id "Protected value object was not found"
read_object env q zone id stored (some object) =
    read_metadata env q zone id stored object object.metadata

unfoldable pub read_key :
    Env
    → ReadRequest
    → (zone id : String) → Option ProtectedUploadRow
    → Option String
    → Fallible ReadAnswer × Env
unfolding read_object
read_key env q zone id stored none = missing env id "Protected value receipt was not found"
read_key env q zone id stored (some key) =
    read_object env q zone id stored (head_object key env.objects)

unfoldable pub read_stored :
    Env → ReadRequest → (zone id : String) → Option ProtectedUploadRow → Fallible ReadAnswer × Env
read_stored env q zone id stored = read_key env q zone id stored (object_key_of stored zone id q)

abbrev pub read_allowed :
    Env → ReadRequest → (zone id : String) → Option Response → Fallible ReadAnswer × Env
read_allowed env q zone id (some refusal) = (ok (refused refusal), env)
read_allowed env q zone id none =
    read_stored env q zone id (get_protected_upload zone id env.uploads)

module _ (host : ReadHost) where
  abbrev pub read_zone :
      Env → ReadRequest → (client id : String) → Option String → Fallible ReadAnswer × Env
  read_zone env q client id none = (
    ok (refused (json_error 401 unauthorized "Missing protected-value trust-zone header" none)),
    env,
  )
  read_zone env q client id (some zone) =
      read_allowed env q zone id
        (authorize (host.sha256_hex) q.authorization client zone env.authorizations)

  abbrev pub read_client :
      Env → ReadRequest → (id : String) → Option String → Fallible ReadAnswer × Env
  read_client env q id none =
      (ok (refused (json_error 401 unauthorized "Missing protected-value client header" none)), env)
  read_client env q id (some client) =
      read_zone env q client id (explicit_trust_zone_id (host.trim) q)

  unfoldable pub handle_protected_value_read :
      Env → ReadRequest → (id : String) → Fallible ReadAnswer × Env
  unfolding explicit_trust_zone_id
  handle_protected_value_read env q id = read_client env q id q.client_id
