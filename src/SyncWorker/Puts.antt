-- ===== src/SyncWorker/Puts.antt =====
-- apps/carpeos-sync-worker/src/index.ts: the PUT of a protected value. The object is stored before the
-- row of its upload, in no transaction: when the row is refused, the object stays.
use carpe_os.Common.{
  ℕ, ◌*◌, String, ◌&&◌, ◌||◌, not, ◌==◌, Option, none, some, List, [], ◌∷◌, str_eq, ltb,
  if◌then◌else◌, length, Fallible, ok, threw,
}
use carpe_os.Common.Code.{hex_lower}
use carpe_os.Schema.{
  orphaned, ProtectedValueUploadIntent, ProtectedValueUploadReceipt, ProtectedValueMetadata,
  uploaded, already_exists, invalid_schema, unauthorized, protected_value_digest_mismatch,
}
use carpe_os.SyncWorker.Store.{
  ProtectedUploadRow, StoredObject, Env, Response, receipt, json_response, json_error,
  get_protected_upload, head_object,
}
use carpe_os.SyncWorker.Receipts.{authorize}
use carpe_os.SyncWorker.Uploads.{
  deterministic_object_key, metadata_from_intent, metadata_matches_intent,
  stored_upload_matches_intent, upsert_protected_value_receipt,
}

-- what is not modelled of the code's calls
pub record UploadHost : Type 0 where
  pub sha256_hex : String → String
  pub hash_hex : List ℕ → String
  pub intent_errors : ProtectedValueUploadIntent → Option String

-- a request, its header of the intent decoded or not
pub record PutRequest : Type 0 where
  pub authorization : Option String
  pub client_id : Option String
  pub intent : Option (Fallible ProtectedValueUploadIntent)
  pub bytes : List ℕ
  pub now : String

abbrev pub max_body_bytes : ℕ
max_body_bytes = 16 * 1024 * 1024

abbrev pub reply_receipt : Fallible ProtectedValueUploadReceipt × Env → Fallible Response × Env
reply_receipt (ok given, env) = (ok (json_response (receipt given) 200), env)
reply_receipt (threw m, env) = (threw m, env)

abbrev pub reject : Env → (status : ℕ) → String → Fallible Response × Env
reject env status message =
    (ok (json_error status protected_value_digest_mismatch message none), env)

-- the object is there already
unfoldable pub put_stored :
    Env
    → ProtectedValueUploadIntent
    → (now : String) → Option ProtectedUploadRow
    → Fallible Response × Env
put_stored env i now none = reply_receipt (upsert_protected_value_receipt env i already_exists now)
put_stored env i now (some row) =
    if stored_upload_matches_intent row i
    then reply_receipt (upsert_protected_value_receipt env i already_exists now)
    else reject env 409 "Existing protected value receipt differs from upload intent"

unfoldable pub put_known :
    Env
    → ProtectedValueUploadIntent
    → (now : String) → Option ProtectedValueMetadata
    → Fallible Response × Env
put_known env i now none = reject env 409 "Existing protected value lacks CarpeOS metadata"
put_known env i now (some m) =
    if metadata_matches_intent m i
    then put_stored env i now
        (get_protected_upload i.trust_zone_id i.protected_value_id env.uploads)
    else reject env 409 "Existing protected value differs from upload intent"

-- the object is new
abbrev pub with_object : Env → ProtectedValueUploadIntent → List ℕ → (now : String) → Env
with_object env i bytes now = record env {
  objects =
      record {
        object_key = i.object_key;
        bytes = bytes;
        metadata = some (metadata_from_intent i [] orphaned now);
      }
      ∷ env.objects;
}

unfoldable pub put_object :
    Env
    → ProtectedValueUploadIntent
    → (bytes : List ℕ) → (now : String) → Option StoredObject
    → Fallible Response × Env
put_object env i bytes now (some o) = put_known env i now o.metadata
put_object env i bytes now none =
    reply_receipt (upsert_protected_value_receipt (with_object env i bytes now) i uploaded now)

module _ (host : UploadHost) where
  unfoldable pub put_authorized :
      Env → ProtectedValueUploadIntent → (bytes : List ℕ) → (now : String) → Fallible Response × Env
  put_authorized env i bytes now =
      if not (str_eq i.object_key (deterministic_object_key i))
      then reject env 422 "Upload intent object_key is not deterministic"
      else if ltb (length bytes) 1 || ltb max_body_bytes (length bytes)
      then reject env 422 "Protected value body size is outside accepted bounds"
      else if str_eq (host.hash_hex bytes) (hex_lower i.original_ciphertext_digest.value)
          && (length bytes == i.original_ciphertext_size_bytes)
      then put_object env i bytes now (head_object i.object_key env.objects)
      else reject env 422 "Protected value body does not match intent digest or size"

  abbrev pub put_allowed :
      Env
      → ProtectedValueUploadIntent
      → (bytes : List ℕ) → (now : String) → Option Response
      → Fallible Response × Env
  put_allowed env i bytes now (some refusal) = (ok refusal, env)
  put_allowed env i bytes now none = put_authorized env i bytes now

  abbrev pub put_valid :
      Env
      → PutRequest
      → (client route_id : String) → ProtectedValueUploadIntent
      → Option String
      → Fallible Response × Env
  put_valid env q client route_id i (some errors) =
      (ok (json_error 400 invalid_schema errors none), env)
  put_valid env q client route_id i none =
      if str_eq i.protected_value_id route_id
      then put_allowed env i q.bytes q.now
          (authorize (host.sha256_hex) q.authorization client i.trust_zone_id env.authorizations)
      else reject env 422 "Route protected_value_id differs from upload intent"

  abbrev pub put_intent :
      Env
      → PutRequest
      → (client route_id : String) → Option (Fallible ProtectedValueUploadIntent)
      → Fallible Response × Env
  put_intent env q client route_id none =
      (ok (json_error 400 invalid_schema "Missing protected-value upload intent" none), env)
  put_intent env q client route_id (some (threw m)) =
      (ok (json_error 400 invalid_schema m none), env)
  put_intent env q client route_id (some (ok i)) =
      put_valid env q client route_id i (host.intent_errors i)

  abbrev pub put_client :
      Env → PutRequest → (route_id : String) → Option String → Fallible Response × Env
  put_client env q route_id none =
      (ok (json_error 401 unauthorized "Missing protected-value client header" none), env)
  put_client env q route_id (some client) = put_intent env q client route_id q.intent

  unfoldable pub handle_protected_value_put :
      Env → PutRequest → (route_id : String) → Fallible Response × Env
  handle_protected_value_put env q route_id = put_client env q route_id q.client_id
