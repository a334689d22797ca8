-- ===== src/Product/OpenLoops/Kinds.antt =====
-- Which loops packages/product-projection/src/open-loops.ts lists.
use carpe_os.Common.{
  ◌≡◌, refl, ap, ◌∙◌, String, Bool, true, false, not, ◌&&◌, ◌||◌, List, [], ◌∷◌, ◌++◌, str_eq,
  arith, Bool-cases, inl, inr,
}
use carpe_os.Product.OpenLoops.{
  Claim, accepted, rejected, needs_review, Supersession, CanonicalEvent, claim, acceptance,
  supersession, other_event, OpenLoopKind, draft_claim, review, conflict, unresolved_supersession,
  verification_gap, OpenLoopItem, when, was_given, claim_loops, claims_loops, is_missing,
  supersession_loop, supersession_loops, Sign, insert_loop, sort_loops, build_open_loops,
  compare_loops, is_positive,
}

abbrev pub same_kind : OpenLoopKind → OpenLoopKind → Bool
same_kind draft_claim draft_claim = true
same_kind review review = true
same_kind conflict conflict = true
same_kind unresolved_supersession unresolved_supersession = true
same_kind verification_gap verification_gap = true
same_kind _ _ = false

abbrev starts_from : String → List String → Bool
starts_from e [] = false
starts_from e (s ∷ ss) = str_eq s e

-- a loop of a kind about an event
abbrev pub is_about : OpenLoopKind → String → OpenLoopItem → Bool
is_about k e l = same_kind l.kind k && starts_from e l.source_event_ids

unfoldable pub is_listed : OpenLoopKind → String → List OpenLoopItem → Bool
is_listed k e [] = false
is_listed k e (l ∷ ls) = is_about k e l || is_listed k e ls

-- whether a claim has a loop of a kind
abbrev pub claim_wants : OpenLoopKind → List CanonicalEvent → Claim → Bool
claim_wants draft_claim es c =
    str_eq c.lifecycle_status "draft"
    && not (was_given accepted c.claim_id es)
    && not (was_given rejected c.claim_id es)
claim_wants review es c = was_given needs_review c.claim_id es
claim_wants conflict es c = was_given accepted c.claim_id es && was_given rejected c.claim_id es
claim_wants _ es c = false

abbrev pub supersession_wants : OpenLoopKind → Supersession → Bool
supersession_wants unresolved_supersession s = is_missing s.replacement_event_id
supersession_wants _ s = false

-- one of the events `rest` is `e`, and has a loop of the kind
unfoldable pub wants : OpenLoopKind → String → List CanonicalEvent → List CanonicalEvent → Bool
wants k e es [] = false
wants k e es (claim c ∷ rest) = (claim_wants k es c && str_eq c.event_id e) || wants k e es rest
wants k e es (supersession s ∷ rest) =
    (supersession_wants k s && str_eq s.event_id e) || wants k e es rest
wants k e es (_ ∷ rest) = wants k e es rest

is_listed-append :
    (k : OpenLoopKind) (e : String) (ls ms : List OpenLoopItem)
    → is_listed k e (ls ++ ms) ≡ (is_listed k e ls || is_listed k e ms)
unfolding is_listed
is_listed-append k e [] ms = refl
is_listed-append k e (l ∷ ls) ms = ground (arith, is_listed-append k e ls ms)

is_listed-claim_loops :
    (k : OpenLoopKind) (e : String) (es : List CanonicalEvent) (c : Claim)
    → is_listed k e (claim_loops es c) ≡ (claim_wants k es c && str_eq c.event_id e)
unfolding is_listed claim_loops
is_listed-claim_loops draft_claim e es c = ground arith
is_listed-claim_loops review e es c = ground arith
is_listed-claim_loops conflict e es c = ground arith
is_listed-claim_loops unresolved_supersession e es c = ground arith
is_listed-claim_loops verification_gap e es c = ground arith

is_listed-supersession :
    (k : OpenLoopKind) (e : String) (s : Supersession)
    → is_listed k e (when (is_missing s.replacement_event_id) (supersession_loop s))
      ≡ (supersession_wants k s && str_eq s.event_id e)
unfolding is_listed
is_listed-supersession draft_claim e s = ground arith
is_listed-supersession review e s = ground arith
is_listed-supersession conflict e s = ground arith
is_listed-supersession unresolved_supersession e s = ground arith
is_listed-supersession verification_gap e s = ground arith

is_listed-all :
    (k : OpenLoopKind) (e : String) (es rest : List CanonicalEvent)
    → (is_listed k e (claims_loops es rest) || is_listed k e (supersession_loops rest))
      ≡ wants k e es rest
unfolding claims_loops supersession_loops wants is_listed
is_listed-all k e es [] = refl
is_listed-all k e es (claim c ∷ rest) = ground (
  arith,
  is_listed-append k e (claim_loops es c) (claims_loops es rest),
  is_listed-claim_loops k e es c,
  is_listed-all k e es rest,
)
is_listed-all k e es (acceptance d ∷ rest) = is_listed-all k e es rest
is_listed-all k e es (supersession s ∷ rest) = ground (
  arith,
  is_listed-append k e (when (is_missing s.replacement_event_id) (supersession_loop s))
      (supersession_loops rest),
  is_listed-supersession k e s,
  is_listed-all k e es rest,
)
is_listed-all k e es (other_event t ∷ rest) = is_listed-all k e es rest

or_swap : (a b c : Bool) → (a || (b || c)) ≡ (b || (a || c))
or_swap a b c = ground arith

module _ (locale_compare : String → String → Sign) where
  is_listed-insert :
      (k : OpenLoopKind) (e : String) (l : OpenLoopItem) (ls : List OpenLoopItem)
      → is_listed k e (insert_loop locale_compare l ls) ≡ (is_about k e l || is_listed k e ls)
  unfolding is_listed insert_loop
  is_listed-insert k e l [] = refl
  is_listed-insert k e l (m ∷ ms) =
      elim (Bool-cases (is_positive (compare_loops locale_compare l m))) [
        | inl later ↦ rw later (
            ap (λ b. is_about k e m || b) (is_listed-insert k e l ms)
            ∙ or_swap (is_about k e m) (is_about k e l) (is_listed k e ms))
        | inr here ↦ rw here refl
      ]

  is_listed-sort :
      (k : OpenLoopKind) (e : String) (ls : List OpenLoopItem)
      → is_listed k e (sort_loops locale_compare ls) ≡ is_listed k e ls
  unfolding is_listed sort_loops
  is_listed-sort k e [] = refl
  is_listed-sort k e (l ∷ ls) =
      is_listed-insert k e l (sort_loops locale_compare ls)
      ∙ ap (λ b. is_about k e l || b) (is_listed-sort k e ls)

  -- A loop about an event is listed exactly when it is open: a draft claim that no decision accepted
  -- or rejected, a claim that a decision sent to review, a claim that was both accepted and rejected,
  -- or a supersession without a replacement. However the texts compare, sorting loses no loop.
  pub build_open_loops_lem :
      (k : OpenLoopKind) (e : String) (es : List CanonicalEvent)
      → is_listed k e (build_open_loops locale_compare es) ≡ wants k e es es
  unfolding build_open_loops
  build_open_loops_lem k e es =
      is_listed-sort k e (claims_loops es es ++ supersession_loops es)
      ∙ is_listed-append k e (claims_loops es es) (supersession_loops es)
      ∙ is_listed-all k e es es
