-- ===== src/Capture/RunLedger/Tests.antt =====
-- A concrete run of packages/capture/src/run-ledger.ts.
use carpe_os.Common.{◌≡◌, refl, none, [], ◌∷◌}
use carpe_os.Capture.RunLedger.{
  RunLedgerEntry, running, link_events_to_run, unique_sorted, sort_texts, distinct, insert_text,
}
use carpe_os.Capture.RunLedger.Links.{link_events_to_run_comm}

abbrev entry : RunLedgerEntry
entry = record {
  run_id = "run_1";
  agent_id = none;
  round = 2;
  started_at = "2026-07-01T00:00:00.000Z";
  ended_at = none;
  event_ids = "ev_2" ∷ [];
  artifact_ids = [];
  status = running;
  subject_ref = "project";
}

linked_test :
    (link_events_to_run entry ("ev_3" ∷ "ev_1" ∷ "ev_3" ∷ [])).event_ids
    ≡ "ev_1" ∷ "ev_2" ∷ "ev_3" ∷ []
unfolding link_events_to_run unique_sorted sort_texts distinct insert_text
linked_test = refl

link_events_to_run_comm_example :
    (link_events_to_run (link_events_to_run entry ("ev_3" ∷ [])) ("ev_1" ∷ [])
      ≡ link_events_to_run (link_events_to_run entry ("ev_1" ∷ [])) ("ev_3" ∷ []))
    × (link_events_to_run (link_events_to_run entry ("ev_3" ∷ [])) ("ev_1" ∷ [])
        ≡ link_events_to_run entry ("ev_3" ∷ "ev_1" ∷ []))
link_events_to_run_comm_example = link_events_to_run_comm entry ("ev_3" ∷ []) ("ev_1" ∷ [])
