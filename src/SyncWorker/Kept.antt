-- ===== src/SyncWorker/Kept.antt =====
-- apps/carpeos-sync-worker/src/index.ts: what the PUT of a protected value changes: rows of uploads,
-- and the bucket, to which it adds the bytes that it has checked.
use carpe_os.Common.{
  ℕ, ◌≡◌, ◌≢◌, refl, ◌⊎◌, eq_iff, arith, String, true, ◌&&◌, ◌||◌, ◌==◌, Option, none, some, List,
  Bool-cases, inl, inr, Fallible, ok, threw, ltb, str_eq, length,
}
use carpe_os.Common.Code.{hex_lower}
use carpe_os.Schema.{
  ProtectedValueUploadIntent, ProtectedValueUploadReceipt, ProtectedValueMetadata, ReceiptStatus,
  uploaded, already_exists,
}
use carpe_os.SyncWorker.Store.{
  ProtectedUploadRow, StoredObject, Env, Response, receipt, json_response, get_protected_upload,
  head_object,
}
use carpe_os.SyncWorker.Receipts.{authorize}
use carpe_os.SyncWorker.Confirmed.{authorize_refusal, refusal_of}
use carpe_os.SyncWorker.Uploads.{
  deterministic_object_key, receipt_from_intent, upload_row, has_other_upload,
  metadata_matches_intent, stored_upload_matches_intent, upsert_protected_value_receipt,
}
use carpe_os.SyncWorker.Puts.{
  UploadHost, PutRequest, max_body_bytes, reply_receipt, reject, with_object, put_stored, put_known,
  put_object, put_authorized, put_allowed, put_valid, put_intent, put_client,
  handle_protected_value_put,
}

-- an answer after which only the rows of uploads differ from a state
abbrev KeepsRest : Env → Fallible Response × Env → Type 0
KeepsRest env answer = (us : List ProtectedUploadRow) × (answer.1 ≡ record env { uploads = us })

upsert-KeepsRest :
    (env : Env) (i : ProtectedValueUploadIntent) (status : ReceiptStatus) (at : String)
    → KeepsRest env (reply_receipt (upsert_protected_value_receipt env i status at))
unfolding upsert_protected_value_receipt
upsert-KeepsRest env i status at =
    elim (Bool-cases (
      has_other_upload (upload_row i (receipt_from_intent i status at)) env.uploads
      || ltb i.original_ciphertext_size_bytes 1)) [
        | inl e ↦ rw e (env.uploads, refl)
        | inr e ↦ rw e (_, refl)
      ]

-- an answer without a receipt, which changes nothing
abbrev Refuses : Env → Fallible Response × Env → Type 0
Refuses env answer =
    ((given : ProtectedValueUploadReceipt) → answer.0 ≢ ok (json_response (receipt given) 200))
    × (answer.1 ≡ env)

module _ (env : Env) (i : ProtectedValueUploadIntent) (now : String) where
  stored-KeepsRest : (o : Option ProtectedUploadRow) → KeepsRest env (put_stored env i now o)
  unfolding put_stored
  stored-KeepsRest none = upsert-KeepsRest env i already_exists now
  stored-KeepsRest (some row) = elim (Bool-cases (stored_upload_matches_intent row i)) [
    | inl e ↦ rw e (upsert-KeepsRest env i already_exists now)
    | inr e ↦ rw e (env.uploads, refl)
  ]

  known-KeepsRest : (m : Option ProtectedValueMetadata) → KeepsRest env (put_known env i now m)
  unfolding put_known
  known-KeepsRest none = (env.uploads, refl)
  known-KeepsRest (some m) = elim (Bool-cases (metadata_matches_intent m i)) [
    | inl e ↦
        rw e
          (stored-KeepsRest (get_protected_upload i.trust_zone_id i.protected_value_id env.uploads))
    | inr e ↦ rw e (env.uploads, refl)
  ]

  object-KeepsRest :
      (bytes : List ℕ) (o : Option StoredObject)
      → KeepsRest env (put_object env i bytes now o)
        ⊎ KeepsRest (with_object env i bytes now) (put_object env i bytes now o)
  unfolding put_object
  object-KeepsRest bytes (some o) = inl (known-KeepsRest o.metadata)
  object-KeepsRest bytes none = inr (upsert-KeepsRest (with_object env i bytes now) i uploaded now)

-- the bytes are those that an intent describes
pub record IsChecked (hash : List ℕ → String) (i : ProtectedValueUploadIntent) (bytes : List ℕ)
    : Type 0 where
  pub digest : hash bytes ≡ hex_lower i.original_ciphertext_digest.value
  pub size : length bytes ≡ i.original_ciphertext_size_bytes

checked :
    (hash : List ℕ → String) (i : ProtectedValueUploadIntent) (bytes : List ℕ)
    → str_eq (hash bytes) (hex_lower i.original_ciphertext_digest.value)
        && (length bytes == i.original_ciphertext_size_bytes)
      ≡ true
    → IsChecked hash i bytes
checked hash i bytes h = record {
  digest = ground (arith, h, eq_iff (hash bytes) (hex_lower i.original_ciphertext_digest.value));
  size = ground (arith, h);
}

-- a PUT refuses, or it has checked the bytes for an intent and added them, or found an object there
abbrev pub Outcome : (List ℕ → String) → Env → PutRequest → Fallible Response × Env → Type 0
Outcome hash env q answer =
    Refuses env answer
    ⊎ ((i : ProtectedValueUploadIntent) × (q.intent ≡ some (ok i))
        × IsChecked hash i q.bytes
        × (KeepsRest env answer ⊎ KeepsRest (with_object env i q.bytes q.now) answer))

module _ (host : UploadHost) (env : Env) (q : PutRequest) where
  rejects :
      (status : ℕ) (message : String) → Outcome (host.hash_hex) env q (reject env status message)
  rejects status message = inl ((λ given h. ground (arith, h)), refl)

  module _ (i : ProtectedValueUploadIntent) (given_intent : q.intent ≡ some (ok i)) where
    authorized-Outcome : Outcome (host.hash_hex) env q (put_authorized host env i q.bytes q.now)
    unfolding put_authorized
    authorized-Outcome = elim (Bool-cases (str_eq i.object_key (deterministic_object_key i))) [
      | inr e ↦ rw e (rejects 422 _)
      | inl e ↦ elim (Bool-cases (ltb (length q.bytes) 1 || ltb max_body_bytes (length q.bytes))) [
        | inl f ↦ rw (e, f) (rejects 422 _)
        | inr f ↦
            elim (Bool-cases (
              str_eq (host.hash_hex q.bytes) (hex_lower i.original_ciphertext_digest.value)
              && (length q.bytes == i.original_ciphertext_size_bytes))) [
                | inl g ↦
                    rw (e, f, g)
                      (inr (
                        i,
                        given_intent,
                        checked (host.hash_hex) i q.bytes g,
                        object-KeepsRest env i q.now q.bytes (head_object i.object_key env.objects),
                      ))
                | inr g ↦ rw (e, f, g) (rejects 422 _)
              ]
      ]
    ]

    allowed-Outcome :
        (refusal : Option Response)
        → ((given : ProtectedValueUploadReceipt)
            → refusal ≢ some (json_response (receipt given) 200))
        → Outcome (host.hash_hex) env q (put_allowed host env i q.bytes q.now refusal)
    allowed-Outcome none n = authorized-Outcome
    allowed-Outcome (some refusal) n =
        inl ((λ given h. n given (refusal_of refusal (json_response (receipt given) 200) h)), refl)

    valid-Outcome :
        (client route_id : String) (errors : Option String)
        → Outcome (host.hash_hex) env q (put_valid host env q client route_id i errors)
    valid-Outcome client route_id (some errors) = inl ((λ given h. ground (arith, h)), refl)
    valid-Outcome client route_id none = elim (Bool-cases (str_eq i.protected_value_id route_id)) [
      | inr e ↦ rw e (rejects 422 _)
      | inl e ↦ rw e (
          allowed-Outcome
            (authorize (host.sha256_hex) q.authorization client i.trust_zone_id env.authorizations)
            (authorize_refusal host q.authorization client i.trust_zone_id env.authorizations))
    ]

  intent-Outcome :
      (client route_id : String) (o : Option (Fallible ProtectedValueUploadIntent))
      → q.intent ≡ o
      → Outcome (host.hash_hex) env q (put_intent host env q client route_id o)
  intent-Outcome client route_id none e = inl ((λ given h. ground (arith, h)), refl)
  intent-Outcome client route_id (some (threw m)) e = inl ((λ given h. ground (arith, h)), refl)
  intent-Outcome client route_id (some (ok i)) e =
      valid-Outcome i e client route_id (host.intent_errors i)

  client-Outcome :
      (route_id : String) (client : Option String)
      → Outcome (host.hash_hex) env q (put_client host env q route_id client)
  client-Outcome route_id none = inl ((λ given h. ground (arith, h)), refl)
  client-Outcome route_id (some client) = intent-Outcome client route_id q.intent refl

  -- What a PUT does: it refuses and changes nothing; or it has checked the bytes for its intent, and
  -- then only rows of uploads change, and, where there was no object, the bytes are added.
  pub put-Outcome :
      (route_id : String)
      → Outcome (host.hash_hex) env q (handle_protected_value_put host env q route_id)
  unfolding handle_protected_value_put
  put-Outcome route_id = client-Outcome route_id q.client_id

-- the same records and requests
pub record SameRecords (env env' : Env) : Type 0 where
  pub events_same : env'.events ≡ env.events
  pub erasures_same : env'.erasures ≡ env.erasures
  pub requests_same : env'.requests ≡ env.requests

outcome-SameRecords :
    (hash : List ℕ → String) (env : Env) (q : PutRequest) (answer : Fallible Response × Env)
    → Outcome hash env q answer
    → SameRecords env (answer.1)
outcome-SameRecords hash env q answer (inl (n, e)) =
    rw e (record { events_same = refl; erasures_same = refl; requests_same = refl })
outcome-SameRecords hash env q answer (inr (i, r, c, inl (us, e))) =
    rw e (record { events_same = refl; erasures_same = refl; requests_same = refl })
outcome-SameRecords hash env q answer (inr (i, r, c, inr (us, e))) =
    rw e (record { events_same = refl; erasures_same = refl; requests_same = refl })

-- A PUT of a protected value changes no record and no request of the worker.
pub put-SameRecords :
    (host : UploadHost) (env : Env) (q : PutRequest) (route_id : String)
    → SameRecords env (handle_protected_value_put host env q route_id).1
put-SameRecords host env q route_id =
    outcome-SameRecords (host.hash_hex) env q _ (put-Outcome host env q route_id)
