-- ===== src/Agentic/Gate/Verdict.antt =====
-- The verdict of packages/agentic/src/gate.ts against a declarative account of it.
use carpe_os.Common.{◌≡◌, refl, Bool, true, not, ◌&&◌, leb, arith, if◌then◌else◌}
use carpe_os.Common.Code.{trim, text_length}
use carpe_os.Agentic.Types.{
  KnowledgeKind, decision, constraint, preference, procedure, fact_candidate, open_question,
  GateDecision, promote, hold, reject,
}
use carpe_os.Agentic.Gate.{
  GateInput, evaluate_agentic_gate, gate_kind, is_usable, no_citation, confidence_ok,
  promote_enabled, side_channel,
}

-- what a candidate must have, whatever its kind: no secret, a citation that was checked, and a
-- statement of eight characters
abbrev pub is_clean : GateInput → Bool
is_clean i =
    i.secret_ok
    && i.cite_ok
    && not (no_citation i.candidate.citations)
    && leb 8 (text_length (trim i.candidate.statement))

abbrev pub earns_promotion : GateInput → Bool
earns_promotion i =
    is_usable i.candidate.kind
    && confidence_ok i.candidate.confidence
    && promote_enabled i.hold_first i.allow_auto_promote

abbrev verdict : GateInput → GateDecision
verdict i = if is_clean i then (if earns_promotion i then promote else hold) else reject

gate_kind_lem :
    (i : GateInput) (k : KnowledgeKind)
    → i.candidate.kind ≡ k
    → i.cite_ok ≡ true
    → i.secret_ok ≡ true
    → (gate_kind i (side_channel k)).decision ≡ (if earns_promotion i then promote else hold)
unfolding gate_kind
gate_kind_lem i decision e c s = ground arith
gate_kind_lem i constraint e c s = ground arith
gate_kind_lem i preference e c s = ground arith
gate_kind_lem i procedure e c s = ground arith
gate_kind_lem i fact_candidate e c s = ground arith
gate_kind_lem i open_question e c s = ground arith

-- The gate promotes exactly the clean candidates (no secret, a checked citation, at least eight
-- characters after trimming) whose kind is usable, whose confidence is missing or at least 0.55, and
-- whose promotion is enabled; it holds the other clean ones, and rejects what is not clean.
pub evaluate_agentic_gate_lem :
    (i : GateInput)
    → (evaluate_agentic_gate i).decision
      ≡ (if is_clean i then (if earns_promotion i then promote else hold) else reject)
unfolding evaluate_agentic_gate
evaluate_agentic_gate_lem i = ground (arith, gate_kind_lem i i.candidate.kind refl)
