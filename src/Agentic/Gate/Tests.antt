-- ===== src/Agentic/Gate/Tests.antt =====
-- A concrete verdict of packages/agentic/src/gate.ts.
use carpe_os.Common.{◌≡◌, true, false, none, some, [], ◌∷◌}
use carpe_os.Common.Code.{trim, text_length}
use carpe_os.Agentic.Types.{decision, Citation, promote}
use carpe_os.Agentic.Gate.{GateInput, evaluate_agentic_gate}
use carpe_os.Agentic.Gate.Verdict.{evaluate_agentic_gate_lem}

abbrev quote : Citation
quote = record {
  evidence_event_id = "ev_1";
  segment_id = none;
  start = 0;
  stop = 20;
  quote = "we ship on Thursdays";
}

abbrev input : GateInput
input = record {
  candidate = record {
    kind = decision;
    statement = " Ship on Thursdays. ";
    citations = quote ∷ [];
    confidence = some 55;
  };
  cite_ok = true;
  secret_ok = true;
  allow_auto_promote = none;
  hold_first = some false;
}

evaluate_agentic_gate_lem_example : (evaluate_agentic_gate input).decision ≡ promote
unfolding trim text_length
evaluate_agentic_gate_lem_example = evaluate_agentic_gate_lem input
