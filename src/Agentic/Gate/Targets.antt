-- ===== src/Agentic/Gate/Targets.antt =====
-- The gate of packages/agentic/src/gate.ts and the targets of packages/agentic/src/claims.ts agree.
use carpe_os.Common.{
  ◌≡◌, refl, sym, ◌∙◌, String, Bool, true, false, ◌&&◌, Option, none, some, arith, if◌then◌else◌,
}
use carpe_os.Agentic.Types.{
  KnowledgeKind, decision, constraint, preference, procedure, fact_candidate, open_question,
  promote, hold, reject,
}
use carpe_os.Agentic.Gate.{
  GateInput, evaluate_agentic_gate, is_usable, is_draft_claim_kind, agentic_kind_to_claim_type,
  materialize_targets_for_kind,
}
use carpe_os.Agentic.Gate.Verdict.{is_clean, evaluate_agentic_gate_lem}

abbrev pub has_type : Option String → Bool
has_type none = false
has_type (some t) = true

usable_targets :
    (k : KnowledgeKind)
    → (is_usable k ≡ true → (materialize_targets_for_kind k).observation ≡ true)
      × ((materialize_targets_for_kind k).draft_claim ≡ is_draft_claim_kind k)
      × (has_type (agentic_kind_to_claim_type k) ≡ (materialize_targets_for_kind k).draft_claim)
usable_targets decision = ((λ h. refl), refl, refl)
usable_targets constraint = ((λ h. refl), refl, refl)
usable_targets preference = ((λ h. refl), refl, refl)
usable_targets procedure = ((λ h. refl), refl, refl)
usable_targets fact_candidate = ((λ h. h), refl, refl)
usable_targets open_question = ((λ h. refl), refl, refl)

promoted_needs :
    (clean usable confident enabled : Bool)
    → (if clean then (if usable && confident && enabled then promote else hold) else reject)
      ≡ promote
    → usable ≡ true
promoted_needs clean usable confident enabled h = ground (arith, h)

-- A candidate that the gate promotes is written as an observation. It is written as a draft claim
-- too exactly when its kind may land as one, and then the kind has a claim type.
pub promoted-targets :
    (i : GateInput)
    → (evaluate_agentic_gate i).decision ≡ promote
    → let kind = i.candidate.kind in
      ((materialize_targets_for_kind kind).observation ≡ true)
      × ((materialize_targets_for_kind kind).draft_claim ≡ is_draft_claim_kind kind)
      × (has_type (agentic_kind_to_claim_type kind) ≡ is_draft_claim_kind kind)
promoted-targets i h =
    let (writes, draft, typed) = usable_targets i.candidate.kind in
    (
      writes (
          promoted_needs (is_clean i) (is_usable i.candidate.kind) _ _
            (sym (evaluate_agentic_gate_lem i) ∙ h)),
      draft,
      typed ∙ draft,
    )
