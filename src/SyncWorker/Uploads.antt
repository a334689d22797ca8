-- ===== src/SyncWorker/Uploads.antt =====
-- apps/carpeos-sync-worker/src/index.ts: the rows of uploads, and what an intent is compared with.
use carpe_os.Common.{
  String, Bool, false, ◌&&◌, ◌||◌, not, ◌==◌, List, [], ◌∷◌, str_eq, ltb, if◌then◌else◌, Fallible,
  ok, threw,
}
use carpe_os.Common.Text.{◌<>◌}
use carpe_os.Common.Code.{hex_lower, text_drop, text_take}
use carpe_os.Schema.{
  OrphanStatus, orphaned, ProtectedValueUploadIntent, ProtectedValueUploadReceipt,
  ProtectedValueMetadata, ReceiptStatus,
}
use carpe_os.SyncWorker.Store.{ProtectedUploadRow, Env}
use carpe_os.SyncWorker.Receipts.{same_option}

abbrev pub deterministic_object_key : ProtectedValueUploadIntent → String
deterministic_object_key i =
    "protected-values/"
    <> i.trust_zone_id
    <> "/"
    <> i.protected_value_id
    <> "/"
    <> hex_lower i.original_ciphertext_digest.value

abbrev pub receipt_from_intent :
    ProtectedValueUploadIntent → ReceiptStatus → (at : String) → ProtectedValueUploadReceipt
receipt_from_intent i status at = record {
  protected_value_id = i.protected_value_id;
  trust_zone_id = i.trust_zone_id;
  object_key = i.object_key;
  original_ciphertext_digest = record (i.original_ciphertext_digest) {
    value = hex_lower i.original_ciphertext_digest.value;
  };
  original_ciphertext_size_bytes = i.original_ciphertext_size_bytes;
  uploaded_at = at;
  status = status;
  upload_receipt_id =
      "rcpt_"
      <> text_drop 3 i.protected_value_id
      <> "_"
      <> hex_lower (text_take 16 i.original_ciphertext_digest.value);
}

abbrev pub metadata_from_intent :
    ProtectedValueUploadIntent → List String → OrphanStatus → (at : String) → ProtectedValueMetadata
metadata_from_intent i ids status at = record {
  protected_value_id = i.protected_value_id;
  trust_zone_id = i.trust_zone_id;
  object_key = i.object_key;
  vault_ref = i.vault_ref;
  ciphertext_nonce = i.ciphertext_nonce;
  ciphertext_auth_tag = i.ciphertext_auth_tag;
  original_ciphertext_digest = record (i.original_ciphertext_digest) {
    value = hex_lower i.original_ciphertext_digest.value;
  };
  original_ciphertext_size_bytes = i.original_ciphertext_size_bytes;
  nonce_ref = i.nonce_ref;
  tag_ref = i.tag_ref;
  key_ref = i.key_ref;
  wrapped_device_key = i.wrapped_device_key;
  linked_event_ids = ids;
  orphan_status = status;
  uploaded_at = at;
}

-- the algorithm and the encoding are fixed by the types
unfoldable pub metadata_matches_intent : ProtectedValueMetadata → ProtectedValueUploadIntent → Bool
metadata_matches_intent m i =
    str_eq m.protected_value_id i.protected_value_id
    && str_eq m.trust_zone_id i.trust_zone_id
    && str_eq m.object_key i.object_key
    && str_eq m.vault_ref i.vault_ref
    && str_eq m.ciphertext_nonce i.ciphertext_nonce
    && str_eq m.ciphertext_auth_tag i.ciphertext_auth_tag
    && same_option m.nonce_ref i.nonce_ref
    && same_option m.tag_ref i.tag_ref
    && str_eq m.key_ref i.key_ref
    && str_eq m.wrapped_device_key i.wrapped_device_key
    && str_eq (hex_lower m.original_ciphertext_digest.value)
        (hex_lower i.original_ciphertext_digest.value)
    && (m.original_ciphertext_size_bytes == i.original_ciphertext_size_bytes)

unfoldable pub stored_upload_matches_intent : ProtectedUploadRow → ProtectedValueUploadIntent → Bool
stored_upload_matches_intent r i =
    str_eq r.protected_value_id i.protected_value_id
    && str_eq r.trust_zone_id i.trust_zone_id
    && str_eq r.object_key i.object_key
    && str_eq r.ciphertext_nonce i.ciphertext_nonce
    && str_eq r.ciphertext_auth_tag i.ciphertext_auth_tag
    && same_option r.nonce_ref i.nonce_ref
    && same_option r.tag_ref i.tag_ref
    && str_eq r.vault_ref i.vault_ref
    && str_eq r.key_ref i.key_ref
    && str_eq r.wrapped_device_key i.wrapped_device_key
    && str_eq r.original_ciphertext_digest_value (hex_lower i.original_ciphertext_digest.value)
    && (r.original_ciphertext_size_bytes == i.original_ciphertext_size_bytes)

-- the row that the statement would insert
abbrev pub upload_row :
    ProtectedValueUploadIntent → ProtectedValueUploadReceipt → ProtectedUploadRow
upload_row i given = record {
  protected_value_id = i.protected_value_id;
  trust_zone_id = i.trust_zone_id;
  object_key = i.object_key;
  original_ciphertext_digest_algorithm = i.original_ciphertext_digest.algorithm;
  original_ciphertext_digest_value = hex_lower i.original_ciphertext_digest.value;
  original_ciphertext_size_bytes = i.original_ciphertext_size_bytes;
  ciphertext_nonce = i.ciphertext_nonce;
  ciphertext_auth_tag = i.ciphertext_auth_tag;
  nonce_ref = i.nonce_ref;
  tag_ref = i.tag_ref;
  vault_ref = i.vault_ref;
  key_ref = i.key_ref;
  wrapped_device_key = i.wrapped_device_key;
  upload_receipt_id = given.upload_receipt_id;
  uploaded_at = given.uploaded_at;
  status = orphaned;
}

-- the binding of a row is that of another
abbrev pub same_binding : ProtectedUploadRow → ProtectedUploadRow → Bool
same_binding r new =
    str_eq r.trust_zone_id new.trust_zone_id
    && str_eq r.object_key new.object_key
    && str_eq r.original_ciphertext_digest_value new.original_ciphertext_digest_value

-- the columns that the statement sets by CASE, where the binding is the same
abbrev pub merge_upload : ProtectedUploadRow → ProtectedUploadRow → ProtectedUploadRow
merge_upload r new = record new {
  uploaded_at = if same_binding r new then r.uploaded_at else new.uploaded_at;
  status = if same_binding r new then r.status else orphaned;
}

-- UNIQUE (object_key), UNIQUE (upload_receipt_id)
unfoldable pub has_other_upload : ProtectedUploadRow → List ProtectedUploadRow → Bool
has_other_upload new [] = false
has_other_upload new (r ∷ rs) =
    (not (str_eq r.protected_value_id new.protected_value_id)
      && (str_eq r.object_key new.object_key || str_eq r.upload_receipt_id new.upload_receipt_id))
    || has_other_upload new rs

-- ON CONFLICT (protected_value_id) DO UPDATE
unfoldable pub put_upload : ProtectedUploadRow → List ProtectedUploadRow → List ProtectedUploadRow
put_upload new [] = new ∷ []
put_upload new (r ∷ rs) =
    if str_eq r.protected_value_id new.protected_value_id
    then merge_upload r new ∷ rs
    else r ∷ put_upload new rs

-- CHECK (original_ciphertext_size_bytes >= 1)
unfoldable pub upsert_protected_value_receipt :
    Env
    → ProtectedValueUploadIntent
    → ReceiptStatus
    → (at : String) → Fallible ProtectedValueUploadReceipt × Env
upsert_protected_value_receipt env i status at =
    let given = receipt_from_intent i status at in
    let row = upload_row i given in
    if has_other_upload row env.uploads || ltb i.original_ciphertext_size_bytes 1
    then (threw "constraint failed: protected_value_uploads", env)
    else (ok given, record env { uploads = put_upload row env.uploads })
