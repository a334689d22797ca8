-- ===== src/SyncWorker/Samples.antt =====
-- Concrete states of apps/carpeos-sync-worker/src/index.ts, for tests.
use carpe_os.Common.{ℕ, refl, String, false, none, some, [], ◌∷◌, arith, All}
use carpe_os.Common.Text.{◌<>◌}
use carpe_os.Json.{end, object}
use carpe_os.Schema.{CanonicalEvent, other_payload, SyncPushRequest}
use carpe_os.SyncWorker.Store.{Env, EventRow, last_sequence}
use carpe_os.SyncWorker.Push.{Host}
use carpe_os.SyncWorker.Pull.{
  event_rows, erasure_rows, comes_before, insert_row, order_rows, zone_log,
}
use carpe_os.SyncWorker.Sequences.{IsFilledIn}
use carpe_os.SyncWorker.Pages.{IsRecorded}

abbrev pub host : Host
host = record { sha256_hex = λ s. s <> "#"; push_errors = λ r. none; pull_errors = λ r. none }

abbrev pub token : String
token = "0123456789abcdef0123456789abcdef"

abbrev pub empty : Env
empty = record {
  authorizations =
      record {
        client_id = "client_1";
        trust_zone_id = "tz_1";
        token_hash_sha256 = token <> "#";
        is_revoked = false;
      }
      ∷ [];
  requests = [];
  counters = [];
  events = [];
  erasures = [];
  uploads = [];
  links = [];
  objects = [];
}

abbrev pub observation : String → CanonicalEvent
observation id = record {
  event_id = id;
  event_type = "Observation";
  trust_zone_id = "tz_1";
  idempotency_key = id;
  request_fingerprint = "fp";
  recorded_start = "2026-01-01T00:00:00Z";
  zone_sequence = none;
  payload = other_payload (object end);
  zone_others = end;
  time_others = end;
  others = end;
}

abbrev pub push_of : String → SyncPushRequest
push_of id = record {
  request_id = "req_" <> id;
  client_id = "client_1";
  trust_zone_id = "tz_1";
  idempotency_key = id;
  request_fingerprint = "fp";
  protected_value_receipts = [];
  events = observation id ∷ [];
  erasures = [];
}

abbrev pub push_1 : SyncPushRequest
push_1 = push_of "evt_1"

abbrev pub stored : ℕ → String → EventRow
stored n id = record {
  trust_zone_id = "tz_1";
  zone_sequence = n;
  event_id = id;
  recorded_time_start = "2026-01-01T00:00:00Z";
  event_json = record (observation id) { zone_sequence = some n };
}

abbrev pub two : Env
two = record empty {
  counters = record { trust_zone_id = "tz_1"; last_sequence = 2 } ∷ [];
  events = stored 1 "evt_1" ∷ stored 2 "evt_2" ∷ [];
}

pub two-IsFilledIn : IsFilledIn "tz_1" two
unfolding last_sequence event_rows erasure_rows order_rows insert_row comes_before
two-IsFilledIn = record {
  events_bounded = omega arith;
  erasures_bounded = tt;
  numbered = (refl, (refl, tt));
  filled = refl;
}

pub two-IsRecorded : All IsRecorded (zone_log "tz_1" two)
unfolding zone_log event_rows erasure_rows order_rows insert_row comes_before
two-IsRecorded = (refl, (refl, tt))
