-- ===== src/Common/TextOrder.antt =====
-- The comparison of texts by code points is a strict total order.
use Prim.Native.Nat.{ℕ, compare as compare_ℕ, Ordering}
use Prim.Native.Char.{code}
use Prim.Native.String.{String, [], ◌∷◌, compare, then}
use Prim.Native.String.compare
use mathlib.Core.Path.{◌≡◌, refl, sym, ap, ap₂, ◌∙◌}
use mathlib.Core.Bool.{true, false}
use native.Mathlib.Omega.{arith}
use text.Mathlib.TextEquality.{path_by_compare}
use carpe_os.Common.Text.{text_lt}

abbrev flip : Ordering → Ordering
flip Ordering.lt = Ordering.gt
flip Ordering.eq = Ordering.eq
flip Ordering.gt = Ordering.lt

compare_ℕ-flip : (a b : ℕ) → compare_ℕ b a ≡ flip (compare_ℕ a b)
compare_ℕ-flip a b = ground arith

then-flip : (o p : Ordering) → then (flip o) (flip p) ≡ flip (then o p)
then-flip Ordering.lt p = refl
then-flip Ordering.eq p = refl
then-flip Ordering.gt p = refl

compare-flip : (s t : String) → compare t s ≡ flip (compare s t)
compare-flip [] [] = compare.nil-nil ∙ sym (ap flip compare.nil-nil)
compare-flip [] (d ∷ t) = compare.cons-nil d t ∙ sym (ap flip (compare.nil-cons d t))
compare-flip (c ∷ s) [] = compare.nil-cons c s ∙ sym (ap flip (compare.cons-nil c s))
compare-flip (c ∷ s) (d ∷ t) =
    compare.cons-cons d c t s
    ∙ ap₂ then (compare_ℕ-flip (code c) (code d)) (compare-flip s t)
    ∙ then-flip (compare_ℕ (code c) (code d)) (compare s t)
    ∙ sym (ap flip (compare.cons-cons c d s t))

compare_trans :
    (s t u : String)
    → compare s t ≡ Ordering.lt
    → compare t u ≡ Ordering.lt
    → compare s u ≡ Ordering.lt
compare_trans [] [] u p q = cc
compare_trans [] (d ∷ t) [] p q = cc (compare.cons-nil d t)
compare_trans [] (d ∷ t) (e ∷ u) p q = compare.nil-cons e u
compare_trans (c ∷ s) [] u p q = cc (compare.cons-nil c s)
compare_trans (c ∷ s) (d ∷ t) [] p q = cc (compare.cons-nil d t)
compare_trans (c ∷ s) (d ∷ t) (e ∷ u) p q = ground (
  arith,
  compare.cons-cons c d s t,
  compare.cons-cons d e t u,
  compare.cons-cons c e s u,
  compare_trans s t u,
)

pub text_lt_asym : (s t : String) → text_lt s t ≡ true → text_lt t s ≡ false
text_lt_asym s t h = ground (arith, compare-flip s t)

pub text_lt_trans : (s t u : String) → text_lt s t ≡ true → text_lt t u ≡ true → text_lt s u ≡ true
text_lt_trans s t u p q = ground (arith, compare_trans s t u)

pub text_lt_total : (s t : String) → text_lt s t ≡ false → text_lt t s ≡ false → s ≡ t
text_lt_total s t p q =
    let same : compare s t ≡ Ordering.eq = ground (arith, compare-flip s t) in
    path_by_compare s t same
