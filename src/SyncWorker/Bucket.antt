-- ===== src/SyncWorker/Bucket.antt =====
-- apps/carpeos-sync-worker/src/index.ts: the objects of the bucket hold the bytes that their metadata
-- describe.
use carpe_os.Common.{
  ℕ, ◌≡◌, sym, subst, ◌∙◌, String, true, Bool-cases, inl, inr, Option, some, List, [], ◌∷◌, str_eq,
  eq_iff, arith, All, length, Fallible, ok,
}
use carpe_os.Common.Code.{hex_lower, hex_lower_twice}
use carpe_os.Schema.{
  orphaned, ProtectedValueUploadIntent, ProtectedValueUploadReceipt, ProtectedValueMetadata,
}
use carpe_os.SyncWorker.Store.{StoredObject, Env, Response, receipt, json_response, head_object}
use carpe_os.SyncWorker.Uploads.{metadata_from_intent, metadata_matches_intent}
use carpe_os.SyncWorker.Puts.{UploadHost, PutRequest, handle_protected_value_put}
use carpe_os.SyncWorker.Kept.{IsChecked, Outcome, put-Outcome}

-- the bytes of an object are those that its metadata describe
abbrev pub IsWhole : (List ℕ → String) → StoredObject → Type 0
IsWhole hash o =
    (m : ProtectedValueMetadata)
    → o.metadata ≡ some m
    → (hash o.bytes ≡ hex_lower m.original_ciphertext_digest.value)
      × (length o.bytes ≡ m.original_ciphertext_size_bytes)

some_inj : {A : Type 0} (a b : A) → some a ≡ some b → a ≡ b
some_inj a b h = cc

own-IsWhole :
    (hash : List ℕ → String) (i : ProtectedValueUploadIntent) (bytes : List ℕ) (now : String)
    → IsChecked hash i bytes
    → IsWhole hash (record {
      object_key = i.object_key;
      bytes = bytes;
      metadata = some (metadata_from_intent i [] orphaned now);
    })
own-IsWhole hash i bytes now c m h =
    subst
      (λ (x : ProtectedValueMetadata).
        (hash bytes ≡ hex_lower x.original_ciphertext_digest.value)
        × (length bytes ≡ x.original_ciphertext_size_bytes))
      (some_inj _ _ h) (c.digest ∙ sym (hex_lower_twice i.original_ciphertext_digest.value), c.size)

outcome-IsWhole :
    (hash : List ℕ → String) (env : Env) (q : PutRequest) (answer : Fallible Response × Env)
    → All (IsWhole hash) env.objects
    → Outcome hash env q answer
    → All (IsWhole hash) (answer.1).objects
outcome-IsWhole hash env q answer w (inl (n, e)) = rw e w
outcome-IsWhole hash env q answer w (inr (i, r, c, inl (us, e))) = rw e w
outcome-IsWhole hash env q answer w (inr (i, r, c, inr (us, e))) =
    rw e (own-IsWhole hash i q.bytes q.now c, w)

-- A PUT leaves a bucket in which every object holds the bytes that its metadata describe.
pub put-IsWhole :
    (host : UploadHost) (env : Env) (q : PutRequest) (route_id : String)
    → All (IsWhole (host.hash_hex)) env.objects
    → All (IsWhole (host.hash_hex)) (handle_protected_value_put host env q route_id).1.objects
put-IsWhole host env q route_id w =
    outcome-IsWhole (host.hash_hex) env q _ w (put-Outcome host env q route_id)

outcome-IsChecked :
    (hash : List ℕ → String) (env : Env) (q : PutRequest) (i : ProtectedValueUploadIntent)
    (given : ProtectedValueUploadReceipt) (answer : Fallible Response × Env)
    → q.intent ≡ some (ok i)
    → answer.0 ≡ ok (json_response (receipt given) 200)
    → Outcome hash env q answer
    → IsChecked hash i q.bytes
outcome-IsChecked hash env q i given answer e h (inl (n, k)) = absurd (n given h)
outcome-IsChecked hash env q i given answer e h (inr (j, r, c, k)) =
    subst (λ x. IsChecked hash x q.bytes) (intent_inj j i (sym r ∙ e)) c
  where
    intent_inj :
        (a b : ProtectedValueUploadIntent)
        → ◌≡◌ {A = Option (Fallible ProtectedValueUploadIntent)} (some (ok a)) (some (ok b))
        → a ≡ b
    intent_inj a b p = cc

-- a PUT that answers with a receipt has checked its bytes
pub put-IsChecked :
    (host : UploadHost) (env : Env) (q : PutRequest) (route_id : String)
    (i : ProtectedValueUploadIntent) (given : ProtectedValueUploadReceipt)
    → q.intent ≡ some (ok i)
    → (handle_protected_value_put host env q route_id).0 ≡ ok (json_response (receipt given) 200)
    → IsChecked (host.hash_hex) i q.bytes
put-IsChecked host env q route_id i given e h =
    outcome-IsChecked (host.hash_hex) env q i given _ e h (put-Outcome host env q route_id)

-- an object that is found is one of the objects
pub head-All :
    (P : StoredObject → Type 0) (key : String) (os : List StoredObject) (o : StoredObject)
    → All P os
    → head_object key os ≡ some o
    → P o
unfolding head_object
head-All P key [] o h e = absurd (ground (arith, e))
head-All P key (x ∷ xs) o (p, h) e = elim (Bool-cases (str_eq x.object_key key)) [
  | inl k ↦ subst P (ground (arith, k, e)) p
  | inr k ↦ head-All P key xs o h (ground (arith, k, e))
]

-- metadata that match an intent describe the same bytes
pub matches-digest :
    (m : ProtectedValueMetadata) (i : ProtectedValueUploadIntent)
    → metadata_matches_intent m i ≡ true
    → (hex_lower m.original_ciphertext_digest.value ≡ hex_lower i.original_ciphertext_digest.value)
      × (m.original_ciphertext_size_bytes ≡ i.original_ciphertext_size_bytes)
unfolding metadata_matches_intent
matches-digest m i h = (
  ground (
    arith,
    h,
    eq_iff (hex_lower m.original_ciphertext_digest.value)
        (hex_lower i.original_ciphertext_digest.value),
  ),
  ground (arith, h),
)
