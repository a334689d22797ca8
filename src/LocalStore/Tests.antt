-- ===== src/LocalStore/Tests.antt =====
-- A concrete store of packages/local-store/src/store.ts.
use carpe_os.Common.{
  ℕ, ◌≡◌, ◌≢◌, eq_iff, refl, String, List, none, some, [], ◌∷◌, arith, All, ok, threw,
}
use carpe_os.Common.Table.{find}
use carpe_os.Json.{str, object, field, end, stable_json}
use carpe_os.Schema.{CanonicalEvent, other_payload, SyncPushRequest}
use carpe_os.Capture.SyncAdmission.{remote_thin_promoted_v1, evaluate_sync_admission, admit_unit}
use carpe_os.Common.Code.{lowers_to}
use carpe_os.LocalStore.Admission.{decide, resolve_sync_admission_meta, member}
use carpe_os.LocalStore.Store.{
  EventRow, OutboxRow, pending, leased, delivered, SealedValue, LocalStore, get_event,
}
use carpe_os.LocalStore.Inbox.{
  Host, imported, replayed, inbox_row, insert_inbox, import_found, import_pulled_event,
  assert_pull_replay_compatible,
}
use carpe_os.Schema.Texts.{event_json, event_value}
use carpe_os.LocalStore.Replays.{import_pulled_event-again}
use carpe_os.LocalStore.Outbox.{
  LeaseCall, LeaseResult, LeaseState, scan, lease_call, lease_outbox, head_rows, join_events,
  is_due, scan_batch, skips, delete_row, update_row, all_leased,
}
use carpe_os.LocalStore.Outbox.Loop.{scan_enough}
use carpe_os.LocalStore.Outbox.Admitted.{IsAdmittedItem, lease_outbox-admitted}
use carpe_os.LocalStore.Outbox.Rows.{rows_of}
use carpe_os.LocalStore.Outbox.Runs.{
  OutboxStep, a_lease, an_ack, a_retry, run, run-delivered, run-leased,
}

abbrev event : CanonicalEvent
event = record {
  event_id = "evt_1";
  event_type = "Observation";
  trust_zone_id = "tz_1";
  idempotency_key = "key_1";
  request_fingerprint = "fp_1";
  recorded_start = "2026-01-01T00:00:00Z";
  zone_sequence = some 1;
  payload = other_payload (object end);
  zone_others = end;
  time_others = end;
  others = field "lifecycle_status" (str "active") end;
}

-- the same identifier, and another key
abbrev diverging : CanonicalEvent
diverging = record event { idempotency_key = "key_2" }

abbrev empty : LocalStore
empty = record {
  trust_zone_id = "tz_1";
  client_id = "client_1";
  canonical_events = [];
  protected_values = [];
  outbox = [];
  dispositions = [];
  inbox_events = [];
  inbox_erasures = [];
  imports = [];
  cursors = [];
}

abbrev sealed : SealedValue
sealed = record {
  nonce = [];
  tag = [];
  ciphertext = 1 ∷ [];
  plaintext_digest = "d";
  size_bytes = 1;
}

abbrev host : Host
host = record {
  event_errors = λ e. none;
  erasure_errors = λ x. none;
  metadata_errors = λ m. none;
  hash_hex = λ bytes. "d";
  reseal = λ m bytes. ok sealed;
}

abbrev with_event : LocalStore
with_event = insert_inbox empty (inbox_row event "")

imports_event : import_pulled_event host empty event ≡ ok (imported, with_event)
unfolding import_pulled_event import_found get_event find
imports_event = refl

import_pulled_event-again_example :
    (get_event with_event "evt_1" ≡ some event)
    × (import_pulled_event host with_event event ≡ ok (replayed, with_event))
import_pulled_event-again_example =
    import_pulled_event-again host empty with_event event imports_event

event_read : get_event with_event "evt_1" ≡ some event
unfolding get_event find
event_read = refl

-- an event of that identifier with another content is refused
diverging_test :
    import_pulled_event host with_event diverging ≡ threw "remote event replay diverges for evt_1"
unfolding import_pulled_event import_found assert_pull_replay_compatible get_event find event_json
    stable_json event_value
diverging_test = refl

abbrev push : SyncPushRequest
push = record {
  request_id = "req_1";
  client_id = "client_1";
  trust_zone_id = "tz_1";
  idempotency_key = "key_1";
  request_fingerprint = "fp_1";
  protected_value_receipts = [];
  events = event ∷ [];
  erasures = [];
}

abbrev captured : ℕ → CanonicalEvent → EventRow
captured n e = record {
  local_sequence = n;
  event_id = e.event_id;
  event_type = e.event_type;
  trust_zone_id = e.trust_zone_id;
  idempotency_key = e.idempotency_key;
  request_fingerprint = e.request_fingerprint;
  protected_value_id = "pv_1";
  event_json = e;
}

abbrev waiting : ℕ → String → OutboxRow
waiting n id = record {
  outbox_id = n;
  event_id = id;
  state = pending;
  attempts = 0;
  available_at = 5;
  lease_id = none;
  lease_expires_at = none;
  last_error = none;
  delivered_at = none;
  push_request_json = push;
}

-- raw evidence before an active observation
abbrev queued : LocalStore
queued = record empty {
  canonical_events =
      captured 1 (record event { event_id = "evt_0"; event_type = "EvidenceArtifact" })
      ∷ captured 2 event
      ∷ [];
  outbox = waiting 1 "evt_0" ∷ waiting 2 "evt_1" ∷ [];
}

abbrev call : LeaseCall
call = lease_call queued 1 1000 10 remote_thin_promoted_v1 "lease_1"

abbrev start : LeaseState
start = record { outbox = queued.outbox; leased_ids = []; skipped = 0; scanned = 0 }

scan_enough_example : scan call 200 start ≡ scan call 500 start
scan_enough_example = scan_enough call 200 500 start (omega arith) (omega arith)

lease_outbox-admitted_example :
    (result : LeaseResult) × (s' : LocalStore) × (lease_outbox queued 1 1000 10
        remote_thin_promoted_v1 "lease_1"
      ≡ ok (result, s'))
    × All (IsAdmittedItem call) result.items
lease_outbox-admitted_example =
    lease_outbox-admitted queued 1 1000 10 remote_thin_promoted_v1 "lease_1" (omega arith)
      (omega arith)
      (
        (λ h. refl, (λ h. absurd (omega arith), tt)),
        ((λ h. absurd (omega arith), (λ h. refl, tt)), tt),
      )
      (refl, (refl, tt))

-- the evidence is dropped from the queue, and the observation behind it is leased
scan_test : (scan call 200 start).leased_ids ≡ 2 ∷ []
unfolding scan head_rows join_events is_due find scan_batch skips decide resolve_sync_admission_meta
    evaluate_sync_admission admit_unit lowers_to delete_row update_row all_leased member
scan_test = refl

-- the observation, leased until 1000, behind a delivered row
abbrev under_way : LocalStore
under_way = record queued {
  outbox =
      record (waiting 1 "evt_0") { state = delivered; delivered_at = some 20 }
      ∷ record (waiting 2 "evt_1") {
        state = leased;
        lease_id = some "lease_1";
        lease_expires_at = some 1000;
        attempts = 1;
      }
      ∷ [];
}

abbrev second_lease : String
second_lease = "lease_2"

abbrev later : List OutboxStep
later =
    a_lease 5 1000 30 remote_thin_promoted_v1 second_lease
    ∷ an_ack 1 second_lease 40
    ∷ a_retry 2 second_lease 10 "late" 50
    ∷ []

other_lease : second_lease ≢ "lease_1"
other_lease p = absurd (ground (arith, eq_iff second_lease "lease_1", p))

run-delivered_example : rows_of 1 (run under_way later).outbox ≡ rows_of 1 (under_way.outbox)
run-delivered_example = run-delivered 1 under_way later (refl, tt)

run-leased_example : rows_of 2 (run under_way later).outbox ≡ rows_of 2 (under_way.outbox)
run-leased_example =
    run-leased 2 1000 "lease_1" under_way later ((refl, refl, refl), tt)
      (omega arith, (other_lease, (other_lease, tt)))
