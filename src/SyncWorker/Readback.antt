-- ===== src/SyncWorker/Readback.antt =====
-- apps/carpeos-sync-worker/src/index.ts: reading a protected value that a PUT has taken.
use carpe_os.Common.{
  ℕ, ◌≡◌, refl, sym, subst, ap, ◌∙◌, String, true, none, some, List, [], str_eq, Fallible, ok,
  arith, Bool, All, length, if◌then◌else◌,
}
use carpe_os.Schema.{
  orphaned, ProtectedValueUploadIntent, ProtectedValueUploadReceipt, ProtectedValueMetadata,
}
use carpe_os.SyncWorker.Store.{
  ProtectedUploadRow, Env, Response, receipt, json_response, head_object,
}
use carpe_os.SyncWorker.Receipts.{authorize}
use carpe_os.SyncWorker.Uploads.{metadata_matches_intent}
use carpe_os.SyncWorker.Puts.{UploadHost, PutRequest, handle_protected_value_put}
use carpe_os.SyncWorker.Uploaded.{IsStored, RowFits, Confirms, own-matches}
use carpe_os.SyncWorker.Confirmed.{put-Confirms}
use carpe_os.SyncWorker.Kept.{IsChecked}
use carpe_os.SyncWorker.Bucket.{IsWhole, put-IsWhole, put-IsChecked, head-All, matches-digest}
use carpe_os.SyncWorker.Downloads.{
  ReadRequest, ReadHost, ReadAnswer, found, metadata_from_stored_upload, explicit_trust_zone_id,
  read_found, read_metadata, read_object, read_key, read_stored, read_allowed, read_zone,
  read_client, handle_protected_value_read,
}

stored-matches :
    (env : Env) (row : ProtectedUploadRow) (i : ProtectedValueUploadIntent)
    → RowFits row i
    → metadata_matches_intent (metadata_from_stored_upload env row) i ≡ true
unfolding metadata_matches_intent
stored-matches env row i f =
    rw
      (
        f.id, f.zone, f.key, f.nonce, f.tag, f.nonce_ref, f.tag_ref, f.vault, f.key_ref, f.wrapped,
        f.digest, f.size,
      )
      (own-matches i [] orphaned "")

matches-ids :
    (m : ProtectedValueMetadata) (i : ProtectedValueUploadIntent)
    → metadata_matches_intent m i ≡ true
    → (str_eq m.protected_value_id i.protected_value_id ≡ true)
      × (str_eq m.trust_zone_id i.trust_zone_id ≡ true)
unfolding metadata_matches_intent
matches-ids m i h = (ground (arith, h), ground (arith, h))

-- the answer of a read gives metadata that match an intent, and the bytes of its object where they
-- are asked for, which have a hash and a length
abbrev pub Gives :
    Env
    → ProtectedValueUploadIntent
    → (is_head : Bool) → (hash : List ℕ → String) → List ℕ
    → Fallible ReadAnswer × Env
    → Type 0
Gives env i is_head hash sent answer =
    (m : ProtectedValueMetadata) × (bytes : List ℕ) × (answer
      ≡ (ok (found m (if is_head then none else some bytes)), env))
    × (metadata_matches_intent m i ≡ true)
    × (hash bytes ≡ hash sent)
    × (length bytes ≡ length sent)

module _ (env : Env) (i : ProtectedValueUploadIntent) (q : ReadRequest) where
  held_read :
      (s : IsStored env i)
      → read_object env q i.trust_zone_id i.protected_value_id
          (some s.row)
          (head_object i.object_key env.objects)
        ≡ read_found env q (some s.row) (s.held.object) (s.held.metadata)
  unfolding read_object read_metadata
  held_read s =
      let (p, z) = matches-ids (s.held.metadata) i (s.held.matches) in
      rw (s.held.there, read_object, s.held.read, read_metadata, p, z) refl

  stored_read :
      (s : IsStored env i)
      → read_stored env q i.trust_zone_id i.protected_value_id (some s.row)
        ≡ read_found env q (some s.row) (s.held.object) (s.held.metadata)
  unfolding read_stored read_key
  stored_read s =
      ap
        (λ k.
          read_object env q i.trust_zone_id i.protected_value_id (some s.row)
            (head_object k env.objects))
        (s.fits.key)
      ∙ held_read s

  -- the bytes that were sent have been checked, and the objects are whole
  module _ (hash : List ℕ → String) (sent : List ℕ) (c : IsChecked hash i sent)
      (w : All (IsWhole hash) env.objects) (s : IsStored env i) where
    held_bytes : (hash s.held.object.bytes ≡ hash sent) × (length s.held.object.bytes ≡ length sent)
    held_bytes =
        let (d, n) =
          head-All (IsWhole hash) i.object_key env.objects (s.held.object) w (s.held.there)
            (s.held.metadata) (s.held.read) in
        let (p, z) = matches-digest (s.held.metadata) i (s.held.matches) in
        (d ∙ p ∙ sym c.digest, n ∙ z ∙ sym c.size)

    stored-Gives :
        Gives env i q.is_head hash sent
          (read_allowed env q i.trust_zone_id i.protected_value_id none)
    stored-Gives = (
      metadata_from_stored_upload env (s.row),
      s.held.object.bytes,
      ap (λ o. read_stored env q i.trust_zone_id i.protected_value_id o) (s.found) ∙ stored_read s,
      stored-matches env (s.row) i (s.fits),
      held_bytes.0,
      held_bytes.1,
    )

    read_client-Gives :
        (host : ReadHost) (client : String)
        → q.client_id ≡ some client
        → explicit_trust_zone_id (host.trim) q ≡ some i.trust_zone_id
        → authorize (host.sha256_hex) q.authorization client i.trust_zone_id env.authorizations
          ≡ none
        → Gives env i q.is_head hash sent
            (handle_protected_value_read host env q i.protected_value_id)
    unfolding handle_protected_value_read
    read_client-Gives host client k z a =
        subst (λ o. Gives env i q.is_head hash sent (read_client host env q i.protected_value_id o))
          (sym k)
          (subst
            (λ o.
              Gives env i q.is_head hash sent (read_zone host env q client i.protected_value_id o))
            (sym z)
            (subst
              (λ o.
                Gives env i q.is_head hash sent
                  (read_allowed env q i.trust_zone_id i.protected_value_id o))
              (sym a) stored-Gives))

-- What a PUT has answered with a receipt for is read back: a HEAD or GET of it that names its zone and
-- that the worker authorizes answers with metadata that match the intent of the PUT, and changes
-- nothing; a GET, and no HEAD, answers with bytes of the hash and the length of those that were put.
-- The objects that are in the bucket before must hold the bytes that their metadata describe, which
-- every PUT preserves.
pub read_put :
    (host : UploadHost) (reader : ReadHost) (env env' : Env) (q : PutRequest) (route_id : String)
    (i : ProtectedValueUploadIntent) (given : ProtectedValueUploadReceipt) (read : ReadRequest)
    (client : String)
    → All (IsWhole (host.hash_hex)) env.objects
    → q.intent ≡ some (ok i)
    → handle_protected_value_put host env q route_id
      ≡ (ok (json_response (receipt given) 200), env')
    → read.client_id ≡ some client
    → explicit_trust_zone_id (reader.trim) read ≡ some i.trust_zone_id
    → authorize (reader.sha256_hex) read.authorization client i.trust_zone_id env'.authorizations
      ≡ none
    → All (IsWhole (host.hash_hex)) env'.objects
      × Gives env' i read.is_head
          (host.hash_hex)
          q.bytes
          (handle_protected_value_read reader env' read i.protected_value_id)
read_put host reader env env' q route_id i given read client w e h k z a =
    let confirmed = subst (λ x. Confirms i x) h (put-Confirms host env q route_id i e) in
    let (s, g) = confirmed given refl in
    let c =
      put-IsChecked host env q route_id i given e (ap (λ (x : Fallible Response × Env). x.0) h) in
    let whole =
      subst (λ (x : Fallible Response × Env). All (IsWhole (host.hash_hex)) (x.1).objects) h
        (put-IsWhole host env q route_id w) in
    (whole, read_client-Gives env' i read (host.hash_hex) q.bytes c whole s reader client k z a)
