-- ===== src/SyncWorker/Uploaded.antt =====
-- apps/carpeos-sync-worker/src/index.ts: what the PUT of a protected value leaves for the push of its
-- event.
use carpe_os.Common.{
  ℕ, ◌≡◌, refl, String, true, ◌||◌, Option, none, some, List, [], ◌∷◌, str_eq, eq_refl, ltb,
  Bool-cases, inl, inr, Fallible, ok, arith,
}
use carpe_os.Common.Code.{hex_lower, hex_lower_twice}
use carpe_os.Schema.{
  ProtectedValueUploadIntent, ProtectedValueUploadReceipt, ProtectedValueMetadata, ReceiptStatus,
  uploaded, already_exists, OrphanStatus, orphaned,
}
use carpe_os.SyncWorker.Store.{
  ProtectedUploadRow, StoredObject, Env, Response, receipt, json_response, get_protected_upload,
  head_object,
}
use carpe_os.SyncWorker.Receipts.{same_option, metadata_matches_stored_upload}
use carpe_os.SyncWorker.Uploads.{
  receipt_from_intent, metadata_from_intent, metadata_matches_intent, upload_row, merge_upload,
  put_upload, has_other_upload, upsert_protected_value_receipt, stored_upload_matches_intent,
}
use carpe_os.SyncWorker.Puts.{reply_receipt, reject, with_object, put_stored, put_known, put_object}

-- the fields of a row are those of an intent
pub record RowFits (row : ProtectedUploadRow) (i : ProtectedValueUploadIntent) : Type 0 where
  pub id : row.protected_value_id ≡ i.protected_value_id
  pub zone : row.trust_zone_id ≡ i.trust_zone_id
  pub key : row.object_key ≡ i.object_key
  pub nonce : row.ciphertext_nonce ≡ i.ciphertext_nonce
  pub tag : row.ciphertext_auth_tag ≡ i.ciphertext_auth_tag
  pub nonce_ref : row.nonce_ref ≡ i.nonce_ref
  pub tag_ref : row.tag_ref ≡ i.tag_ref
  pub vault : row.vault_ref ≡ i.vault_ref
  pub key_ref : row.key_ref ≡ i.key_ref
  pub wrapped : row.wrapped_device_key ≡ i.wrapped_device_key
  pub digest : row.original_ciphertext_digest_value ≡ hex_lower i.original_ciphertext_digest.value
  pub size : row.original_ciphertext_size_bytes ≡ i.original_ciphertext_size_bytes

pub same_option_refl : (o : Option String) → same_option o o ≡ true
unfolding same_option
same_option_refl none = refl
same_option_refl (some s) = eq_refl s

-- the metadata that is stored with an object is that of its intent
pub own-matches :
    (i : ProtectedValueUploadIntent) (ids : List String) (status : OrphanStatus) (at : String)
    → metadata_matches_intent (metadata_from_intent i ids status at) i ≡ true
unfolding metadata_matches_intent
own-matches i ids status at = rw (hex_lower_twice i.original_ciphertext_digest.value) (
    ground (
      arith,
      eq_refl i.protected_value_id,
      eq_refl i.trust_zone_id,
      eq_refl i.object_key,
      eq_refl i.vault_ref,
      eq_refl i.ciphertext_nonce,
      eq_refl i.ciphertext_auth_tag,
      same_option_refl i.nonce_ref,
      same_option_refl i.tag_ref,
      eq_refl i.key_ref,
      eq_refl i.wrapped_device_key,
      eq_refl (hex_lower i.original_ciphertext_digest.value),
    ))

pub fits-matches :
    (m : ProtectedValueMetadata) (row : ProtectedUploadRow) (i : ProtectedValueUploadIntent)
    → metadata_matches_intent m i ≡ true
    → RowFits row i
    → metadata_matches_stored_upload m row ≡ true
unfolding metadata_matches_intent metadata_matches_stored_upload
fits-matches m row i h f =
    rw
      (
        f.id, f.zone, f.key, f.nonce, f.tag, f.nonce_ref, f.tag_ref, f.vault, f.key_ref, f.wrapped,
        f.digest, f.size,
      )
      h

-- the object of an intent is in the bucket, with the metadata of the intent
pub record HasObject (env : Env) (i : ProtectedValueUploadIntent) : Type 0 where
  pub object : StoredObject
  pub there : head_object i.object_key env.objects ≡ some object
  pub metadata : ProtectedValueMetadata
  pub read : object.metadata ≡ some metadata
  pub matches : metadata_matches_intent metadata i ≡ true

-- its row too
pub record IsStored (env : Env) (i : ProtectedValueUploadIntent) : Type 0 where
  pub held : HasObject env i
  pub row : ProtectedUploadRow
  pub found : get_protected_upload i.trust_zone_id i.protected_value_id env.uploads ≡ some row
  pub fits : RowFits row i

-- a receipt for an intent
abbrev pub IsReceipt : ProtectedValueUploadIntent → ProtectedValueUploadReceipt → Type 0
IsReceipt i given =
    (status : ReceiptStatus) × (at : String) × (given ≡ receipt_from_intent i status at)

-- an answer with a receipt leaves what it says
abbrev pub Confirms : ProtectedValueUploadIntent → Fallible Response × Env → Type 0
Confirms i (answer, env) =
    (given : ProtectedValueUploadReceipt)
    → answer ≡ ok (json_response (receipt given) 200)
    → IsStored env i × IsReceipt i given

module _ (i : ProtectedValueUploadIntent) (given : ProtectedValueUploadReceipt) where
  abbrev own_row : ProtectedUploadRow
  own_row = upload_row i given

  own_fits :
      (status : OrphanStatus) (at : String)
      → RowFits (record own_row { status = status; uploaded_at = at }) i
  own_fits status at = record {
    id = refl;
    zone = refl;
    key = refl;
    nonce = refl;
    tag = refl;
    nonce_ref = refl;
    tag_ref = refl;
    vault = refl;
    key_ref = refl;
    wrapped = refl;
    digest = refl;
    size = refl;
  }

  put-found :
      (rs : List ProtectedUploadRow)
      → (row : ProtectedUploadRow) × (get_protected_upload i.trust_zone_id i.protected_value_id
            (put_upload own_row rs)
          ≡ some row)
        × RowFits row i
  unfolding put_upload get_protected_upload
  put-found [] =
      (own_row, rw (eq_refl i.protected_value_id, eq_refl i.trust_zone_id) refl, own_fits _ _)
  put-found (r ∷ rs) = elim (Bool-cases (str_eq r.protected_value_id i.protected_value_id)) [
    | inl e ↦ (
      merge_upload r own_row,
      rw (e, get_protected_upload, eq_refl i.protected_value_id, eq_refl i.trust_zone_id) refl,
      own_fits _ _,
    )
    | inr e ↦ let (row, f, fits) = put-found rs in (row, rw (e, get_protected_upload, e) f, fits)
  ]

receipt-given :
    (g given : ProtectedValueUploadReceipt)
    → ◌≡◌ {A = Fallible Response}
        (ok (json_response (receipt g) 200))
        (ok (json_response (receipt given) 200))
    → given ≡ g
receipt-given g given h = cc

upsert-Confirms :
    (env : Env) (i : ProtectedValueUploadIntent) (status : ReceiptStatus) (at : String)
    → HasObject env i
    → Confirms i (reply_receipt (upsert_protected_value_receipt env i status at))
unfolding upsert_protected_value_receipt
upsert-Confirms env i status at held =
    let g = receipt_from_intent i status at in
    let (row, found, fits) = put-found i g env.uploads in
    elim (Bool-cases
      (has_other_upload (upload_row i g) env.uploads || ltb i.original_ciphertext_size_bytes 1)) [
        | inl e ↦ rw e (λ given h. absurd (ground (arith, h)))
        | inr e ↦ rw e (λ given h. (
          record {
            held = record {
              object = held.object;
              there = held.there;
              metadata = held.metadata;
              read = held.read;
              matches = held.matches;
            };
            row = row;
            found = found;
            fits = fits;
          },
          (status, at, receipt-given (g) given h),
        ))
      ]

pub refused-Confirms :
    (env : Env) (i : ProtectedValueUploadIntent) (status : ℕ) (message : String)
    → Confirms i (reject env status message)
refused-Confirms env i status message given h = absurd (ground (arith, h))

module _ (env : Env) (i : ProtectedValueUploadIntent) (now : String) where
  stored-Confirms :
      (o : Option ProtectedUploadRow) → HasObject env i → Confirms i (put_stored env i now o)
  unfolding put_stored
  stored-Confirms none held = upsert-Confirms env i already_exists now held
  stored-Confirms (some row) held = elim (Bool-cases (stored_upload_matches_intent row i)) [
    | inl e ↦ rw e (upsert-Confirms env i already_exists now held)
    | inr e ↦ rw e (refused-Confirms env i 409 _)
  ]

  known-Confirms :
      (object : StoredObject) (m : Option ProtectedValueMetadata)
      → head_object i.object_key env.objects ≡ some object
      → object.metadata ≡ m
      → Confirms i (put_known env i now m)
  unfolding put_known
  known-Confirms object none f e = refused-Confirms env i 409 _
  known-Confirms object (some m) f e = elim (Bool-cases (metadata_matches_intent m i)) [
    | inl g ↦ rw g (
        stored-Confirms (get_protected_upload i.trust_zone_id i.protected_value_id env.uploads)
          (record { object = object; there = f; metadata = m; read = e; matches = g }))
    | inr g ↦ rw g (refused-Confirms env i 409 _)
  ]

  pub object-Confirms :
      (bytes : List ℕ) (o : Option StoredObject)
      → head_object i.object_key env.objects ≡ o
      → Confirms i (put_object env i bytes now o)
  unfolding put_object head_object
  object-Confirms bytes (some o) f = known-Confirms o o.metadata f refl
  object-Confirms bytes none f =
      upsert-Confirms (with_object env i bytes now) i uploaded now (record {
        object = record {
          object_key = i.object_key;
          bytes = bytes;
          metadata = some (metadata_from_intent i [] orphaned now);
        };
        there = rw (eq_refl i.object_key) refl;
        metadata = metadata_from_intent i [] orphaned now;
        read = refl;
        matches = own-matches i [] orphaned now;
      })
