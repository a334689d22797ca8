-- ===== src/Agentic/Gate.antt =====
-- packages/agentic/src/gate.ts and claims.ts: what a verified candidate becomes.
pub mod Verdict
pub mod Targets
mod Tests
use carpe_os.Common.{
  ℕ, String, Bool, true, false, not, ◌&&◌, ◌||◌, Option, none, some, List, [], ◌∷◌, ltb, leb,
  if◌then◌else◌,
}
use carpe_os.Common.Code.{trim, text_length}
use carpe_os.Agentic.Types.{
  KnowledgeKind, decision, constraint, preference, procedure, fact_candidate, open_question,
  Citation, ExtractCandidate, GateDecision, promote, hold, reject, GateFeatures, GateResult,
  policy_version,
}

-- USABLE_PROMOTE_KINDS
abbrev pub is_usable : KnowledgeKind → Bool
is_usable decision = true
is_usable constraint = true
is_usable preference = true
is_usable _ = false

abbrev pub no_citation : List Citation → Bool
no_citation [] = true
no_citation (c ∷ cs) = false

-- the kinds that are never promoted, and the reason they are held for
abbrev pub side_channel : KnowledgeKind → Option String
side_channel open_question = some "open_question_side_channel"
side_channel procedure = some "procedure_hold_biased_v1"
side_channel fact_candidate = some "fact_candidate_not_in_v1_allowlist"
side_channel _ = none

abbrev pub confidence_ok : Option ℕ → Bool
confidence_ok none = true
confidence_ok (some c) = leb 55 c

-- `hold_first === true ? false : allow_auto_promote !== false`, the flags optional
abbrev pub promote_enabled : Option Bool → Option Bool → Bool
promote_enabled (some true) allow = false
promote_enabled _ (some false) = false
promote_enabled _ _ = true

pub record GateInput : Type 0 where
  pub candidate : ExtractCandidate
  pub cite_ok : Bool
  pub secret_ok : Bool
  pub allow_auto_promote : Option Bool
  pub hold_first : Option Bool

abbrev pub gate_features : GateInput → GateFeatures
gate_features i = record {
  cite_ok = i.cite_ok;
  secret_ok = i.secret_ok;
  kind_allowlisted = is_usable i.candidate.kind;
  model_confidence = i.candidate.confidence;
}

abbrev pub gate_result : GateInput → GateDecision → List String → GateResult
gate_result i d codes = record {
  policy = policy_version;
  decision = d;
  reason_codes = codes;
  features = gate_features i;
}

-- a candidate that is clean, cited and long enough
unfoldable pub gate_kind : GateInput → Option String → GateResult
gate_kind i (some reason) = gate_result i hold (reason ∷ [])
gate_kind i none =
    let enabled = promote_enabled i.hold_first i.allow_auto_promote in
    if enabled
      && is_usable i.candidate.kind
      && i.cite_ok
      && i.secret_ok
      && confidence_ok i.candidate.confidence
    then gate_result i promote
        ("promote_when_verified" ∷ "allowlist_kind" ∷ "cite_ok" ∷ "e5_clean" ∷ [])
    else if not (is_usable i.candidate.kind)
    then gate_result i hold ("kind_not_in_usable_allowlist" ∷ [])
    else gate_result i hold
        ((if enabled then "hold_confidence_or_features" else "hold_first_debug_override") ∷ [])

unfoldable pub evaluate_agentic_gate : GateInput → GateResult
evaluate_agentic_gate i =
    if not i.secret_ok
    then gate_result i reject ("secret_like_material" ∷ [])
    else if not i.cite_ok || no_citation i.candidate.citations
    then gate_result i reject ("missing_or_failed_citation" ∷ [])
    else if ltb (text_length (trim i.candidate.statement)) 8
    then gate_result i reject ("statement_too_short" ∷ [])
    else gate_kind i (side_channel i.candidate.kind)

-- claims.ts: AGENTIC_DRAFT_CLAIM_KINDS
abbrev pub is_draft_claim_kind : KnowledgeKind → Bool
is_draft_claim_kind fact_candidate = true
is_draft_claim_kind decision = true
is_draft_claim_kind _ = false

abbrev pub agentic_kind_to_claim_type : KnowledgeKind → Option String
agentic_kind_to_claim_type fact_candidate = some "factual"
agentic_kind_to_claim_type decision = some "decision"
agentic_kind_to_claim_type _ = none

pub record MaterializeTargets : Type 0 where
  pub observation : Bool
  pub draft_claim : Bool

abbrev pub materialize_targets_for_kind : KnowledgeKind → MaterializeTargets
materialize_targets_for_kind fact_candidate = record { observation = false; draft_claim = true }
materialize_targets_for_kind decision = record { observation = true; draft_claim = true }
materialize_targets_for_kind _ = record { observation = true; draft_claim = false }
