-- ===== src/Common/Table.antt =====
-- A database table with a text primary key, as the list of its rows in order of insertion.
use Prim.Native.String.{String}
use mathlib.Core.Path.{◌≡◌, refl}
use mathlib.Core.Bool.{false}
use mathlib.Core.Logic.{inl, inr}
use mathlib.Core.Option.{Option, none, some}
use mathlib.Core.List.{List, [], ◌∷◌, ◌++◌}
use native.Mathlib.Omega.{arith}
use text.Mathlib.Text.{◌==◌}
use text.Mathlib.TextEquality.{eq_iff}
use carpe_os.Common.Tests.{if◌then◌else◌, Bool-cases}
use carpe_os.Common.Lists.{All}

module _ {ℓ} {R : Type ℓ} (key : R → String) where
  -- SELECT … WHERE key = ?
  unfoldable pub find : String → List R → Option R
  find k [] = none
  find k (r ∷ rs) = if key r == k then some r else find k rs

  -- UPDATE of the row with that key
  unfoldable pub modify : String → (R → R) → List R → List R
  modify k f [] = []
  modify k f (r ∷ rs) = if key r == k then f r ∷ rs else r ∷ modify k f rs

  pub find-key : (k : String) (rs : List R) {r : R} → find k rs ≡ some r → key r ≡ k
  unfolding find
  find-key k [] h = ground arith
  find-key k (q ∷ rs) {r} h = ground (arith, eq_iff (key q) k, find-key k rs {r = r})

  pub find-append :
      (k : String) (rs : List R) (s : R)
      → find k rs ≡ none
      → find k (rs ++ s ∷ []) ≡ (if key s == k then some s else none)
  unfolding find
  find-append k [] s h = refl
  find-append k (r ∷ rs) s h = ground (arith, find-append k rs s)

  pub find-append_some :
      (k : String) (rs : List R) (s : R) {r : R}
      → find k rs ≡ some r
      → find k (rs ++ s ∷ []) ≡ some r
  unfolding find
  find-append_some k [] s h = ground arith
  find-append_some k (q ∷ rs) s {r} h = ground (arith, find-append_some k rs s {r = r})

  pub find-modify_self :
      (k : String) (f : R → R) (rs : List R) {r : R}
      → key (f r) ≡ k
      → find k rs ≡ some r
      → find k (modify k f rs) ≡ some (f r)
  unfolding find modify
  find-modify_self k f [] e h = ground arith
  find-modify_self k f (q ∷ rs) {r} e h =
      ground (arith, find-modify_self k f rs {r = r} e, eq_iff (key (f r)) k)

  pub find-modify_ne :
      (k j : String) (f : R → R) (rs : List R)
      → ((r : R) → key r ≡ k → key (f r) ≡ k)
      → (k == j) ≡ false
      → find j (modify k f rs) ≡ find j rs
  unfolding find modify
  find-modify_ne k j f [] e h = refl
  find-modify_ne k j f (r ∷ rs) e h = ground (
    arith,
    e r,
    find-modify_ne k j f rs e h,
    eq_iff (key r) k,
    eq_iff (key (f r)) j,
    eq_iff (key r) j,
    eq_iff k j,
  )

module _ {ℓ κ} {R : Type ℓ} (key : R → String) (P : R → Type κ) where
  pub All-find : (k : String) (rs : List R) {r : R} → All P rs → find key k rs ≡ some r → P r
  unfolding find
  All-find k [] a h = ground arith
  All-find k (q ∷ rs) {r} (p, a) h = ground (arith, All-find k rs {r = r} a)

  -- only the row that is found is changed, so only it needs the property anew
  pub All-modify :
      (k : String) (f : R → R) (rs : List R)
      → All P rs
      → ((r : R) → find key k rs ≡ some r → P (f r))
      → All P (modify key k f rs)
  unfolding find modify
  All-modify k f [] a h = tt
  All-modify k f (r ∷ rs) (p, a) h = elim (Bool-cases (key r == k)) [
    | inl here ↦ rw here (h r (rw here), a)
    | inr later ↦ rw later (p, All-modify k f rs a (λ q e. h q (rw later e)))
  ]
