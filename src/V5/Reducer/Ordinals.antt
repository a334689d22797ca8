-- ===== src/V5/Reducer/Ordinals.antt =====
-- Sequences of calls of the scope counter of packages/v5/src/reducer.ts.
use carpe_os.Common.{
  ℕ, ◌+◌, ◌≡◌, refl, sym, ap, ◌∙◌, subst, String, true, false, Option, none, some, List, [], ◌∷◌,
  arith, str_eq, eq_iff, eq_refl, if◌then◌else◌, Fallible, ok, threw, Bool-cases, inl, inr,
}
use carpe_os.Common.Table.{find, modify, find-key, find-modify_self, find-modify_ne}
use carpe_os.V5.Reducer.{
  Counter, counter_key, ScopeCounter, create_scope_counter_v2, create_scope, add_counter, bump,
  allocate, next_ordinal, mark, has, is_used, used_key,
}
use carpe_os.Common.Text.{◌<>◌, decimal}

pub data ScopeCall : Type 0 where
  create : (scope : String) → ScopeCall
  next : (scope : String) → ScopeCall
  use_up : (scope : String) (ordinal : ℕ) → ScopeCall

-- an ordinal that was handed out
pub record Allocation : Type 0 where
  pub scope : String
  pub ordinal : ℕ

-- the counter after a call that may throw
abbrev kept : ScopeCounter → Fallible ScopeCounter → ScopeCounter
kept s (ok s') = s'
kept s (threw e) = s

abbrev kept_pair : ScopeCounter → Fallible (ℕ × ScopeCounter) → ScopeCounter
kept_pair s (ok (n, s')) = s'
kept_pair s (threw e) = s

unfoldable pub after : ScopeCounter → ScopeCall → ScopeCounter
after s (create scope) = kept s (create_scope s scope)
after s (next scope) = kept_pair s (next_ordinal s scope)
after s (use_up scope n) = kept s (mark s scope n)

abbrev handed : String → Fallible (ℕ × ScopeCounter) → List Allocation → List Allocation
handed scope (ok (n, s)) rest = record { scope = scope; ordinal = n } ∷ rest
handed scope (threw e) rest = rest

-- the ordinals that a sequence of calls hands out
unfoldable pub allocated : ScopeCounter → List ScopeCall → List Allocation
allocated s [] = []
allocated s (create scope ∷ cs) = allocated (after s (create scope)) cs
allocated s (next scope ∷ cs) =
    handed scope (next_ordinal s scope) (allocated (after s (next scope)) cs)
allocated s (use_up scope n ∷ cs) = allocated (after s (use_up scope n)) cs

-- the first ordinal that a scope has not handed out, 0 for a scope that is not there
abbrev low_of : Option Counter → ℕ
low_of none = 0
low_of (some c) = c.next

abbrev pub low : ScopeCounter → String → ℕ
low s scope = low_of (find counter_key scope s.counters)

-- the ordinals of a scope start at `n`, and rise by one
unfoldable pub CountsFrom : String → ℕ → List Allocation → Type 0
CountsFrom scope n [] = Unit
CountsFrom scope n (a ∷ rest) =
    if str_eq a.scope scope
    then (a.ordinal ≡ n) × CountsFrom scope (n + 1) rest
    else CountsFrom scope n rest

low_add :
    (s : ScopeCounter) (k scope : String) (found : Option Counter)
    → find counter_key k s.counters ≡ found
    → low (kept s (add_counter found k s)) scope ≡ low s scope
unfolding find
low_add s k scope (some c) h = refl
low_add s k scope none h = elim (Bool-cases (str_eq k scope)) [
  | inl hit ↦
      let absent : find counter_key scope s.counters ≡ none =
        ap (λ j. find counter_key j s.counters) (sym ((eq_iff k scope).0 hit)) ∙ h in
      rw (hit, absent) refl
  | inr miss ↦ rw miss refl
]

low-allocate :
    (s : ScopeCounter) (k scope : String) (found : Option Counter)
    → find counter_key k s.counters ≡ found
    → (rest : List Allocation)
    → CountsFrom scope (low (kept_pair s (allocate found k s)) scope) rest
    → CountsFrom scope (low s scope) (handed k (allocate found k s) rest)
unfolding CountsFrom
low-allocate s k scope none h rest r = r
low-allocate s k scope (some c) h rest r = elim (Bool-cases (str_eq k scope)) [
  | inl hit ↦
      let at_k : k ≡ scope = (eq_iff k scope).0 hit in
      let held : find counter_key scope s.counters ≡ some c =
        ap (λ j. find counter_key j s.counters) (sym at_k) ∙ h in
      let bumped : find counter_key scope (modify counter_key k bump s.counters) ≡ some (bump c) =
        ap (λ j. find counter_key scope (modify counter_key j bump s.counters)) at_k
        ∙ find-modify_self counter_key scope bump s.counters
            (find-key counter_key scope s.counters held) held in
      rw (hit, held) (refl, subst (λ o. CountsFrom scope (low_of o) rest) bumped r)
  | inr miss ↦ rw miss (
      subst (λ o. CountsFrom scope (low_of o) rest)
        (find-modify_ne counter_key k scope bump s.counters (λ q e. e) miss) r)
]

low-mark :
    (s : ScopeCounter) (k : String) (n : ℕ) (scope : String)
    → low (kept s (mark s k n)) scope ≡ low s scope
unfolding mark
low-mark s k n scope = elim (Bool-cases (is_used (used_key k n) s.used)) [
  | inl replay ↦ rw replay refl
  | inr new ↦ rw new refl
]

allocated-CountsFrom :
    (s : ScopeCounter) (cs : List ScopeCall) (scope : String)
    → CountsFrom scope (low s scope) (allocated s cs)
unfolding allocated after create_scope next_ordinal CountsFrom
allocated-CountsFrom s [] scope = tt
allocated-CountsFrom s (create k ∷ cs) scope =
    subst (λ n. CountsFrom scope n (allocated (after s (create k)) cs))
      (low_add s k scope (find counter_key k s.counters) refl)
      (allocated-CountsFrom (after s (create k)) cs scope)
allocated-CountsFrom s (next k ∷ cs) scope =
    low-allocate s k scope (find counter_key k s.counters) refl (allocated (after s (next k)) cs)
      (allocated-CountsFrom (after s (next k)) cs scope)
allocated-CountsFrom s (use_up k n ∷ cs) scope =
    subst (λ m. CountsFrom scope m (allocated (after s (use_up k n)) cs)) (low-mark s k n scope)
      (allocated-CountsFrom (after s (use_up k n)) cs scope)

-- Whatever calls are made on a fresh counter, the ordinals that it hands out for a scope are
-- 0, 1, 2 and so on in this order: none is handed out twice and none is left out.
pub ordinals-CountsFrom :
    (cs : List ScopeCall) (scope : String)
    → CountsFrom scope 0 (allocated create_scope_counter_v2 cs)
unfolding find
ordinals-CountsFrom cs scope = allocated-CountsFrom create_scope_counter_v2 cs scope

unfoldable pub run : ScopeCounter → List ScopeCall → ScopeCounter
run s [] = s
run s (c ∷ cs) = run (after s c) cs

used_add :
    (s : ScopeCounter) (k : String) (found : Option Counter)
    → (kept s (add_counter found k s)).used ≡ s.used
used_add s k none = refl
used_add s k (some c) = refl

used_allocate :
    (s : ScopeCounter) (k : String) (found : Option Counter)
    → (kept_pair s (allocate found k s)).used ≡ s.used
used_allocate s k none = refl
used_allocate s k (some c) = refl

used_mark :
    (s : ScopeCounter) (k : String) (n : ℕ) (key : String)
    → is_used key s.used ≡ true
    → is_used key (kept s (mark s k n)).used ≡ true
unfolding mark is_used
used_mark s k n key h = elim (Bool-cases (is_used (used_key k n) s.used)) [
  | inl replay ↦ rw replay h
  | inr new ↦ rw new (ground (arith, h))
]

run-used :
    (s : ScopeCounter) (cs : List ScopeCall) (key : String)
    → is_used key s.used ≡ true
    → is_used key (run s cs).used ≡ true
unfolding run after create_scope next_ordinal
run-used s [] key h = h
run-used s (create k ∷ cs) key h =
    run-used (after s (create k)) cs key
      (ap (is_used key) (used_add s k (find counter_key k s.counters)) ∙ h)
run-used s (next k ∷ cs) key h =
    run-used (after s (next k)) cs key
      (ap (is_used key) (used_allocate s k (find counter_key k s.counters)) ∙ h)
run-used s (use_up k n ∷ cs) key h = run-used (after s (use_up k n)) cs key (used_mark s k n key h)

mark-used :
    (s s' : ScopeCounter) (k : String) (n : ℕ)
    → mark s k n ≡ ok s'
    → (is_used (used_key k n) s.used ≡ false) × (is_used (used_key k n) s'.used ≡ true)
unfolding mark is_used
mark-used s s' k n h = elim (Bool-cases (is_used (used_key k n) s.used)) [
  | inl replay ↦ ground arith
  | inr new ↦
      let added : record s { used = used_key k n ∷ s.used } ≡ s' = ground arith in
      (
        new,
        subst (λ (t : ScopeCounter). is_used (used_key k n) t.used ≡ true) added
            (rw (eq_refl (used_key k n)) refl),
      )
]

-- A pair of scope and ordinal that was marked had not been marked before; from then on it counts as
-- used, and marking it again throws, after any further calls.
pub mark_once :
    (s s' : ScopeCounter) (cs : List ScopeCall) (k : String) (n : ℕ)
    → mark s k n ≡ ok s'
    → (has s k n ≡ false)
      × (has (run s' cs) k n ≡ true)
      × (mark (run s' cs) k n
          ≡ threw ("replay/conflict: (" <> k <> ", " <> decimal n <> ") already used"))
unfolding has mark
mark_once s s' cs k n h =
    let (fresh, used) = mark-used s s' k n h in
    let still = run-used s' cs (used_key k n) used in (fresh, still, rw still refl)
