-- ===== src/V5/M8/Keys.antt =====
-- packages/v5/src/m8-seam.ts: what it means for a receipt that the search for body keys finds none.
use carpe_os.Common.{
  ℕ, zero, suc, ◌+◌, ◌≡◌, refl, subst, String, Bool, true, false, ◌&&◌, ◌⊎◌, inl, inr, List, [],
  ◌∷◌, ◌++◌, All, keep, arith, Bool-cases, ltb, if◌then◌else◌,
}
use carpe_os.Common.Code.{lowers_to}
use carpe_os.Json.{
  Value, undefined, null, bool, num, str, array, object, Elements, no_items, item, Members, end,
  field,
}
use carpe_os.V5.M8.Receipt.{
  collect_keys, collect_items, collect_fields, has_lowered, forbidden_body_keys, soft_keys,
  is_soft_hit, is_safe_metadata, get, body_hits, no_hits,
}

-- no object within so many levels of objects and arrays has a key that is `t` in lower case
mutual
  pub Lacks : String → ℕ → Value → Type 0
  Lacks t n (array xs) = ItemsLack t n xs
  Lacks t n (object fs) = MembersLack t n fs
  Lacks t n _ = Unit

  pub ItemsLack : String → ℕ → Elements → Type 0
  ItemsLack t zero xs = Unit
  ItemsLack t (suc n) no_items = Unit
  ItemsLack t (suc n) (item x xs) = Lacks t n x × ItemsLack t (suc n) xs

  pub MembersLack : String → ℕ → Members → Type 0
  MembersLack t zero fs = Unit
  MembersLack t (suc n) end = Unit
  MembersLack t (suc n) (field k v fs) =
      (lowers_to k t ≡ false) × Lacks t n v × MembersLack t (suc n) fs

-- a value that is missing, or one of the words that describe a secret without holding it
pub data IsHarmless : Value → Type 0 where
  left_out : {v : Value} → v ≡ undefined → IsHarmless v
  nothing : {v : Value} → v ≡ null → IsHarmless v
  word : {v : Value} {s : String} → v ≡ str s → is_safe_metadata s ≡ true → IsHarmless v

-- what a receipt is free of: nine levels deep, the eight body keys; and, where a key for a secret
-- stands in these levels, anything but a harmless value under that key at the top
pub record IsBodyFree (v : Value) : Type 0 where
  pub bodies : All (λ t. Lacks t 9 v) forbidden_body_keys
  pub secrets : All (λ t. Lacks t 9 v ⊎ IsHarmless (get t v)) soft_keys

has_lowered-append :
    (ks js : List String) (t : String)
    → has_lowered (ks ++ js) t ≡ false
    → (has_lowered ks t ≡ false) × (has_lowered js t ≡ false)
unfolding has_lowered
has_lowered-append [] js t h = (refl, h)
has_lowered-append (k ∷ ks) js t h = elim (Bool-cases (lowers_to k t)) [
  | inl found ↦ ground (arith, found, h)
  | inr other ↦
      let (a, b) = has_lowered-append ks js t (ground (arith, other, h)) in
      (ground (arith, other, a), b)
]

lacked_key :
    (k : String) (ks : List String) (t : String)
    → has_lowered (k ∷ ks) t ≡ false
    → (lowers_to k t ≡ false) × (has_lowered ks t ≡ false)
unfolding has_lowered
lacked_key k ks t h = (ground (arith, h), ground (arith, h))

within : (d n : ℕ) → d + suc n ≡ 9 → ltb 8 d ≡ false
within d n e = ground arith

inside :
    (d n : ℕ) (ks : List String) (t : String)
    → d + suc n ≡ 9
    → has_lowered (if ltb 8 d then [] else ks) t ≡ false
    → has_lowered ks t ≡ false
inside d n ks t e h = subst (λ b. has_lowered (if b then [] else ks) t ≡ false) (within d n e) h

mutual
  unfolding collect_keys Lacks

  keys-Lacks :
      (t : String) (d n : ℕ) (v : Value)
      → d + n ≡ 9
      → has_lowered (collect_keys d v) t ≡ false
      → Lacks t n v
  keys-Lacks t d zero (array xs) e h = tt
  keys-Lacks t d (suc n) (array xs) e h =
      items-ItemsLack t d (suc n) xs e (inside d n (collect_items d xs) t e h)
  keys-Lacks t d zero (object fs) e h = tt
  keys-Lacks t d (suc n) (object fs) e h =
      fields-MembersLack t d (suc n) fs e (inside d n (collect_fields d fs) t e h)
  keys-Lacks t d n undefined e h = tt
  keys-Lacks t d n null e h = tt
  keys-Lacks t d n (bool b) e h = tt
  keys-Lacks t d n (num m) e h = tt
  keys-Lacks t d n (str s) e h = tt

  items-ItemsLack :
      (t : String) (d n : ℕ) (xs : Elements)
      → d + n ≡ 9
      → has_lowered (collect_items d xs) t ≡ false
      → ItemsLack t n xs
  items-ItemsLack t d zero xs e h = tt
  items-ItemsLack t d (suc n) no_items e h = tt
  items-ItemsLack t d (suc n) (item x xs) e h =
      let (a, b) = has_lowered-append (collect_keys (suc d) x) (collect_items d xs) t h in
      (keys-Lacks t (suc d) n x (omega arith) a, items-ItemsLack t d (suc n) xs e b)

  fields-MembersLack :
      (t : String) (d n : ℕ) (fs : Members)
      → d + n ≡ 9
      → has_lowered (collect_fields d fs) t ≡ false
      → MembersLack t n fs
  fields-MembersLack t d zero fs e h = tt
  fields-MembersLack t d (suc n) end e h = tt
  fields-MembersLack t d (suc n) (field k v fs) e h =
      let (o, r) = lacked_key k (collect_keys (suc d) v ++ collect_fields d fs) t h in
      let (a, b) = has_lowered-append (collect_keys (suc d) v) (collect_fields d fs) t r in
      (o, keys-Lacks t (suc d) n v (omega arith) a, fields-MembersLack t d (suc n) fs e b)

keep-none :
    (p : String → Bool) (ts : List String) → no_hits (keep p ts) ≡ true → All (λ t. p t ≡ false) ts
keep-none p [] h = tt
keep-none p (t ∷ ts) h = elim (Bool-cases (p t)) [
  | inl hit ↦ ground (arith, hit, h)
  | inr clean ↦ (clean, keep-none p ts (ground (arith, clean, h)))
]

no_hits-append :
    (hs js : List String) → no_hits (hs ++ js) ≡ true → (no_hits hs ≡ true) × (no_hits js ≡ true)
no_hits-append [] js h = (refl, h)
no_hits-append (k ∷ hs) js h = ground arith

harmless : (v : Value) → is_soft_hit v ≡ false → IsHarmless v
harmless undefined h = left_out refl
harmless null h = nothing refl
harmless (str s) h = word refl (ground (arith, h))
harmless (bool b) h = ground arith
harmless (num n) h = ground arith
harmless (array xs) h = ground arith
harmless (object fs) h = ground arith

soft_key :
    (v : Value) (t : String)
    → has_lowered (collect_keys 0 v) t && is_soft_hit (get t v) ≡ false
    → Lacks t 9 v ⊎ IsHarmless (get t v)
soft_key v t h = elim (Bool-cases (has_lowered (collect_keys 0 v) t)) [
  | inl there ↦ inr (harmless (get t v) (ground (arith, there, h)))
  | inr absent ↦ inl (keys-Lacks t 0 9 v refl absent)
]

weaken_All :
    {P Q : String → Type 0} → ((t : String) → P t → Q t) → (ts : List String) → All P ts → All Q ts
weaken_All f [] h = tt
weaken_All f (t ∷ ts) (p, h) = (f t p, weaken_All f ts h)

pub no_hits-IsBodyFree : (v : Value) → no_hits (body_hits v) ≡ true → IsBodyFree v
unfolding body_hits
no_hits-IsBodyFree v h =
    let keys = collect_keys 0 v in
    let (hard, soft) =
      no_hits-append (keep (has_lowered keys) forbidden_body_keys)
        (keep (λ k. has_lowered keys k && is_soft_hit (get k v)) soft_keys) h in
    record {
      bodies =
          weaken_All (λ t a. keys-Lacks t 0 9 v refl a) forbidden_body_keys
            (keep-none (has_lowered keys) forbidden_body_keys hard);
      secrets =
          weaken_All (soft_key v) soft_keys
            (keep-none (λ k. has_lowered keys k && is_soft_hit (get k v)) soft_keys soft);
    }
