-- ===== src/SyncWorker/Confirmed.antt =====
-- apps/carpeos-sync-worker/src/index.ts: a push of the event whose protected value a PUT has taken.
use carpe_os.Common.{
  ℕ, ◌≡◌, ◌≢◌, refl, subst, sym, ap, ◌∙◌, String, true, ◌&&◌, ◌||◌, ◌==◌, Option, none, some, List,
  [], ◌∷◌, str_eq, eq_refl, ltb, length, Bool-cases, inl, inr, Fallible, ok, arith,
}
use carpe_os.Common.Code.{hex_lower, hex_lower_twice}
use carpe_os.Schema.{
  ProtectedValueRef, ProtectedValueUploadIntent, ProtectedValueUploadReceipt, SyncPushRequest,
}
use carpe_os.SyncWorker.Store.{
  Env, Response, receipt, json_response, head_object, get_protected_upload, AuthorizationRow,
  ProtectedUploadRow,
}
use carpe_os.SyncWorker.Receipts.{
  authorize, authorize_token, receipt_matches, stored_matches, validate_metadata, validate_object,
  validate_stored, validate_given, validate_protected_receipt,
}
use carpe_os.SyncWorker.Uploads.{deterministic_object_key}
use carpe_os.SyncWorker.Puts.{
  UploadHost, PutRequest, max_body_bytes, put_authorized, put_allowed, put_valid, put_intent,
  put_client, handle_protected_value_put,
}
use carpe_os.SyncWorker.Uploaded.{
  IsStored, IsReceipt, Confirms, RowFits, fits-matches, same_option_refl, object-Confirms,
  refused-Confirms,
}

pub refusal_of : (a b : Response) → ◌≡◌ {A = Fallible Response} (ok a) (ok b) → some a ≡ some b
refusal_of a b h = cc

module _ (host : UploadHost) (env : Env) (i : ProtectedValueUploadIntent) where
  authorized-Confirms :
      (bytes : List ℕ) (now : String) → Confirms i (put_authorized host env i bytes now)
  unfolding put_authorized
  authorized-Confirms bytes now =
      elim (Bool-cases (str_eq i.object_key (deterministic_object_key i))) [
        | inr e ↦ rw e (refused-Confirms env i 422 _)
        | inl e ↦ elim (Bool-cases (ltb (length bytes) 1 || ltb max_body_bytes (length bytes))) [
          | inl f ↦ rw (e, f) (refused-Confirms env i 422 _)
          | inr f ↦
              elim (Bool-cases (
                str_eq (host.hash_hex bytes) (hex_lower i.original_ciphertext_digest.value)
                && (length bytes == i.original_ciphertext_size_bytes))) [
                  | inl g ↦
                      rw (e, f, g)
                        (object-Confirms env i now bytes (head_object i.object_key env.objects)
                          refl)
                  | inr g ↦ rw (e, f, g) (refused-Confirms env i 422 _)
                ]
        ]
      ]

  allowed-Confirms :
      (bytes : List ℕ) (now : String) (refusal : Option Response)
      → ((given : ProtectedValueUploadReceipt) → refusal ≢ some (json_response (receipt given) 200))
      → Confirms i (put_allowed host env i bytes now refusal)
  allowed-Confirms bytes now none n = authorized-Confirms bytes now
  allowed-Confirms bytes now (some refusal) n =
      λ given h. absurd (n given (refusal_of refusal (json_response (receipt given) 200) h))

-- `authorize` gives no receipt
module _ (host : UploadHost) where
  pub authorize_refusal :
      (authorization : Option String) (client zone : String) (rows : List AuthorizationRow)
      (given : ProtectedValueUploadReceipt)
      → authorize (host.sha256_hex) authorization client zone rows
        ≢ some (json_response (receipt given) 200)
  unfolding authorize authorize_token
  authorize_refusal none client zone rows given h = ground (arith, h)
  authorize_refusal (some header) client zone rows given h = ground (arith, h)

  module _ (env : Env) (q : PutRequest) (route_id : String) (i : ProtectedValueUploadIntent) where
    valid-Confirms :
        (client : String) (errors : Option String)
        → Confirms i (put_valid host env q client route_id i errors)
    valid-Confirms client (some errors) = λ given h. absurd (ground (arith, h))
    valid-Confirms client none = elim (Bool-cases (str_eq i.protected_value_id route_id)) [
      | inr e ↦ rw e (refused-Confirms env i 422 _)
      | inl e ↦ rw e (
          allowed-Confirms host env i q.bytes q.now
            (authorize (host.sha256_hex) q.authorization client i.trust_zone_id env.authorizations)
            (authorize_refusal q.authorization client i.trust_zone_id env.authorizations))
    ]

    client-Confirms :
        (client : Option String)
        → q.intent ≡ some (ok i)
        → Confirms i (put_client host env q route_id client)
    client-Confirms none e = λ given h. absurd (ground (arith, h))
    client-Confirms (some client) e =
        subst (λ o. Confirms i (put_intent host env q client route_id o)) (sym e)
          (valid-Confirms client (host.intent_errors i))

    pub put-Confirms :
        q.intent ≡ some (ok i) → Confirms i (handle_protected_value_put host env q route_id)
    unfolding handle_protected_value_put
    put-Confirms e = client-Confirms q.client_id e

-- the reference of an event is to the value of an intent
pub record IsFor (i : ProtectedValueUploadIntent) (r : ProtectedValueRef) : Type 0 where
  pub id : r.protected_value_id ≡ i.protected_value_id
  pub digest :
      hex_lower r.encrypted_blob.digest.value ≡ hex_lower i.original_ciphertext_digest.value
  pub size : r.encrypted_blob.size_bytes ≡ i.original_ciphertext_size_bytes
  pub vault : r.vault_ref ≡ i.vault_ref
  pub key : r.key_ref ≡ i.key_ref
  pub nonce : some r.encrypted_blob.nonce_ref ≡ i.nonce_ref
  pub tag : some r.encrypted_blob.tag_ref ≡ i.tag_ref

module _ (env : Env) (i : ProtectedValueUploadIntent) (r : ProtectedValueRef)
    (for : IsFor i r) where
  stored_row : (row : ProtectedUploadRow) → RowFits row i → stored_matches r row ≡ true
  unfolding stored_matches
  stored_row row f =
      rw
        (
          f.digest,
          f.size,
          f.vault,
          f.key_ref,
          f.nonce_ref,
          f.tag_ref,
          for.digest,
          for.size,
          for.vault,
          for.key,
          sym for.nonce,
          sym for.tag,
        )
        (ground (
          arith,
          eq_refl (hex_lower i.original_ciphertext_digest.value),
          eq_refl i.vault_ref,
          eq_refl i.key_ref,
          same_option_refl (some r.encrypted_blob.nonce_ref),
          same_option_refl (some r.encrypted_blob.tag_ref),
        ))

  object_valid :
      (s : IsStored env i) → validate_object r (s.row) (head_object i.object_key env.objects) ≡ none
  unfolding validate_object validate_metadata
  object_valid s =
      rw
        (
          s.held.there,
          validate_object,
          s.held.read,
          validate_metadata,
          fits-matches (s.held.metadata) s.row i (s.held.matches) (s.fits),
        )
        refl

  stored_valid :
      IsStored env i
      → validate_stored env r
          (get_protected_upload i.trust_zone_id i.protected_value_id env.uploads)
        ≡ none
  unfolding validate_stored validate_object validate_metadata
  stored_valid s =
      rw (s.found, validate_stored, stored_row s.row s.fits)
        (ap (λ k. validate_object r s.row (head_object k env.objects)) (s.fits.key)
          ∙ object_valid s)

  receipt_valid :
      (request : SyncPushRequest) (given : ProtectedValueUploadReceipt)
      → request.trust_zone_id ≡ i.trust_zone_id
      → IsReceipt i given
      → receipt_matches request r given ≡ true
  unfolding receipt_matches
  receipt_valid request given z (status, at, e) =
      rw (e, z, for.id, for.digest, for.size)
        (rw (hex_lower_twice i.original_ciphertext_digest.value) (
          ground (
            arith,
            eq_refl i.trust_zone_id,
            eq_refl i.protected_value_id,
            eq_refl (hex_lower i.original_ciphertext_digest.value),
          )))

-- A push is not refused for its protected value after a PUT has answered with a receipt for it: with
-- that receipt in the push, `validateProtectedReceipt` finds nothing. The push must be of the zone of
-- the upload, and refer to the value that the intent of the PUT describes.
pub put_accepted :
    (host : UploadHost) (env env' : Env) (q : PutRequest) (route_id : String)
    (i : ProtectedValueUploadIntent) (given : ProtectedValueUploadReceipt)
    (request : SyncPushRequest) (r : ProtectedValueRef)
    → q.intent ≡ some (ok i)
    → handle_protected_value_put host env q route_id
      ≡ (ok (json_response (receipt given) 200), env')
    → request.protected_value_receipts ≡ given ∷ []
    → request.trust_zone_id ≡ i.trust_zone_id
    → IsFor i r
    → validate_protected_receipt env' request (some r) ≡ none
unfolding validate_protected_receipt validate_given
put_accepted host env env' q route_id i given request r e h held z for =
    let confirmed = subst (λ a. Confirms i a) h (put-Confirms host env q route_id i e) in
    let (s, g) = confirmed given refl in
    rw (held, validate_given, receipt_valid env' i r for request given z g, z)
      (ap (λ k. validate_stored env' r (get_protected_upload i.trust_zone_id k env'.uploads))
          (for.id)
        ∙ stored_valid env' i r for s)
