-- ===== src/V5/Reducer/Spans.antt =====
-- What `spansOverlap` of packages/v5/src/reducer.ts says of the positions of two spans.
use carpe_os.Common.{
  ℕ, ◌≤◌, ◌<◌, ◌≡◌, ◌≢◌, ◌⊎◌, inl, inr, refl, sym, ◌∙◌, true, false, ◌&&◌, ◌||◌, arith, str_eq,
  eq_iff, if◌then◌else◌, leb, ◌==◌, Bool-cases, max, ◌↔◌,
}
use carpe_os.V5.Reducer.{Span, Overlap, apart, duplicate, containment, crossing, spans_overlap}

-- a position of a segment lies in a span
pub record IsIn (p : ℕ) (a : Span) : Type 0 where
  pub from : a.start ≤ p
  pub before : p < a.stop

-- The answer does not depend on which span comes first.
pub spans_overlap_comm : (a b : Span) → spans_overlap a b ≡ spans_overlap b a
unfolding spans_overlap
spans_overlap_comm a b =
    ground (arith, eq_iff a.segment_id b.segment_id, eq_iff b.segment_id a.segment_id)

-- two spans of one segment, by their ends
abbrev of_ends : ℕ → ℕ → ℕ → ℕ → Overlap
of_ends s t u v =
    if s == u && t == v
    then duplicate
    else if leb v s || leb t u
    then apart
    else if leb s u && leb v t || leb u s && leb t v
    then containment
    else crossing

apart_ends : (s t u v : ℕ) → s < t → u < v → of_ends s t u v ≡ apart → (v ≤ s) ⊎ (t ≤ u)
apart_ends s t u v a b h = ground arith

meet_ends : (s t u v : ℕ) → s < t → u < v → of_ends s t u v ≢ apart → (max s u < t) × (max s u < v)
meet_ends s t u v a b h = ground (arith, h)

-- every position of the one is a position of the other
abbrev pub IsInside : Span → Span → Type 0
IsInside a b = (p : ℕ) → IsIn p a → IsIn p b

abbrev pub Shares : Span → Span → Type 0
Shares a b = (a.segment_id ≡ b.segment_id) × (p : ℕ) × IsIn p a × IsIn p b

same_segment :
    (a b : Span)
    → str_eq a.segment_id b.segment_id ≡ true
    → spans_overlap a b ≡ of_ends a.start a.stop b.start b.stop
unfolding spans_overlap
same_segment a b h = rw h refl

other_segment : (a b : Span) → str_eq a.segment_id b.segment_id ≡ false → spans_overlap a b ≡ apart
unfolding spans_overlap
other_segment a b h = rw h refl

-- Two spans that are not empty overlap in some way exactly when they are of the same segment and
-- have a position in common.
pub spans_overlap_lem :
    (a b : Span) → a.start < a.stop → b.start < b.stop → spans_overlap a b ≢ apart ↔ Shares a b
spans_overlap_lem a b s t = elim (Bool-cases (str_eq a.segment_id b.segment_id)) [
  | inl here ↦ (
    λ h.
        let (m, n) =
          meet_ends a.start a.stop b.start b.stop s t (λ e. h (same_segment a b here ∙ e)) in
        (
          (eq_iff a.segment_id b.segment_id).0 here,
          max a.start b.start,
          record { from = omega arith; before = m },
          record { from = omega arith; before = n },
        ),
    λ (same, p, x, y) e. ground (
      arith,
      x.from,
      x.before,
      y.from,
      y.before,
      apart_ends a.start a.stop b.start b.stop s t (sym (same_segment a b here) ∙ e),
    ),
  )
  | inr other ↦ (
    λ h. absurd (h (other_segment a b other)),
    λ (same, p, x, y) e. ground (arith, same, other, eq_iff a.segment_id b.segment_id),
  )
]

ends_of :
    (a b : Span)
    → spans_overlap a b ≡ containment
    → ((a.start ≤ b.start) × (b.stop ≤ a.stop)) ⊎ ((b.start ≤ a.start) × (a.stop ≤ b.stop))
unfolding spans_overlap
ends_of a b h = ground (arith, h)

-- When two spans are classified as a containment, every position of one of them is a position
-- of the other.
pub containment_lem : (a b : Span) → spans_overlap a b ≡ containment → IsInside a b ⊎ IsInside b a
containment_lem a b h = elim (ends_of a b h) [
  | inl (s, t) ↦
      inr (λ p i. record { from = omega (arith, i.from, s); before = omega (arith, i.before, t) })
  | inr (s, t) ↦
      inl (λ p i. record { from = omega (arith, i.from, s); before = omega (arith, i.before, t) })
]
