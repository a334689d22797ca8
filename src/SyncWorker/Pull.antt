-- ===== src/SyncWorker/Pull.antt =====
-- apps/carpeos-sync-worker/src/index.ts: `handlePull`, a page of the records of a zone in the order
-- of their sequence numbers.
use carpe_os.Common.{
  ℕ, ◌+◌, String, Bool, ◌&&◌, ◌||◌, ◌==◌, Option, none, some, List, [], ◌∷◌, ◌++◌, str_eq, ltb,
  if◌then◌else◌, or_else, length, take, keep, Fallible, ok, threw,
}
use carpe_os.Common.Text.{text_lt, decimal, ◌<>◌}
use carpe_os.Schema.{
  CanonicalEvent, ErasureLedgerRecord, SyncPullRequest, SyncPullResult, invalid_schema,
}
use carpe_os.SyncWorker.Store.{
  EventRow, ErasureRow, Env, pull_result, Response, json_response, json_error,
}
use carpe_os.SyncWorker.Receipts.{authorize}
use carpe_os.SyncWorker.Push.{Host}

pub data PulledRecord : Type 0 where
  an_event : CanonicalEvent → PulledRecord
  an_erasure : ErasureLedgerRecord → PulledRecord

pub record PullRow : Type 0 where
  pub zone_sequence : ℕ
  pub record_id : String
  pub recorded_sort : String
  pub payload_json : PulledRecord

abbrev pub pulled_event : EventRow → PullRow
pulled_event r = record {
  zone_sequence = r.zone_sequence;
  record_id = r.event_id;
  recorded_sort = r.recorded_time_start;
  payload_json = an_event r.event_json;
}

abbrev pub pulled_erasure : ErasureRow → PullRow
pulled_erasure r = record {
  zone_sequence = r.zone_sequence;
  record_id = r.erasure_id;
  recorded_sort = r.requested_at;
  payload_json = an_erasure r.erasure_json;
}

module _ (zone : String) where
  -- WHERE trust_zone_id = ?1, in either table
  unfoldable pub event_rows : List EventRow → List PullRow
  event_rows [] = []
  event_rows (r ∷ rs) =
      let rest = event_rows rs in
      if str_eq r.trust_zone_id zone then pulled_event r ∷ rest else rest

  unfoldable pub erasure_rows : List ErasureRow → List PullRow
  erasure_rows [] = []
  erasure_rows (r ∷ rs) =
      let rest = erasure_rows rs in
      if str_eq r.trust_zone_id zone then pulled_erasure r ∷ rest else rest

-- ORDER BY zone_sequence ASC, record_id ASC
unfoldable pub comes_before : PullRow → PullRow → Bool
comes_before r q =
    ltb r.zone_sequence q.zone_sequence
    || (r.zone_sequence == q.zone_sequence && text_lt r.record_id q.record_id)

unfoldable pub insert_row : PullRow → List PullRow → List PullRow
insert_row r [] = r ∷ []
insert_row r (q ∷ qs) =
    let rest = insert_row r qs in if comes_before q r then q ∷ rest else r ∷ q ∷ qs

unfoldable pub order_rows : List PullRow → List PullRow
order_rows [] = []
order_rows (r ∷ rs) = insert_row r (order_rows rs)

-- the records of a zone, of both tables, in order
unfoldable pub zone_log : String → Env → List PullRow
zone_log zone env = order_rows (event_rows zone env.events ++ erasure_rows zone env.erasures)

-- AND zone_sequence > ?2 AND recorded_time_start > ?3
abbrev pub is_after : ℕ → String → PullRow → Bool
is_after after recorded r = ltb after r.zone_sequence && text_lt recorded r.recorded_sort

abbrev pub push_event : PulledRecord → List CanonicalEvent → List CanonicalEvent
push_event (an_event e) es = e ∷ es
push_event (an_erasure x) es = es

abbrev pub push_erasure : PulledRecord → List ErasureLedgerRecord → List ErasureLedgerRecord
push_erasure (an_event e) xs = xs
push_erasure (an_erasure x) xs = x ∷ xs

unfoldable pub events_of : List PullRow → List CanonicalEvent
events_of [] = []
events_of (r ∷ rs) = push_event r.payload_json (events_of rs)

unfoldable pub erasures_of : List PullRow → List ErasureLedgerRecord
erasures_of [] = []
erasures_of (r ∷ rs) = push_erasure r.payload_json (erasures_of rs)

-- `pageRows.at(-1)?.zone_sequence`
unfoldable pub final_sequence : List PullRow → Option ℕ
final_sequence [] = none
final_sequence (r ∷ []) = some r.zone_sequence
final_sequence (r ∷ (q ∷ qs)) = final_sequence (q ∷ qs)

abbrev pub cursor_of : Option ℕ → Option String
cursor_of none = none
cursor_of (some n) = some ("after_sequence:" <> decimal n)

abbrev pub page_of : List PullRow → Bool → SyncPullResult
page_of rows more = record {
  events = events_of rows;
  erasures = erasures_of rows;
  cursor = cursor_of (final_sequence rows);
  after_sequence = final_sequence rows;
  has_more = more;
}

abbrev pub epoch_text : String
epoch_text = "0000-01-01T00:00:00Z"

-- the rows that the statement selects, one more than the page holds
unfoldable pub select_rows : Env → SyncPullRequest → List PullRow
select_rows env pull = take (pull.limit + 1) (
    keep (is_after (or_else pull.after_sequence 0) (or_else pull.recorded_after epoch_text))
      (zone_log pull.trust_zone_id env))

unfoldable pub pull_page : Env → SyncPullRequest → SyncPullResult
pull_page env pull =
    let rows = select_rows env pull in page_of (take pull.limit rows) (ltb pull.limit (length rows))

unfoldable pub pull_authorized : Env → SyncPullRequest → Option Response → Response
pull_authorized env pull (some refusal) = refusal
pull_authorized env pull none = json_response (pull_result (pull_page env pull)) 200

module _ (host : Host) where
  unfoldable pub pull_valid : Env → Option String → SyncPullRequest → Option String → Response
  unfolding pull_authorized
  pull_valid env authorization pull (some errors) = json_error 400 invalid_schema errors none
  pull_valid env authorization pull none = pull_authorized env pull (
      authorize (host.sha256_hex) authorization pull.client_id pull.trust_zone_id
        env.authorizations)

  unfoldable pub handle_pull : Env → Option String → Fallible SyncPullRequest → Response
  unfolding pull_valid
  handle_pull env authorization (threw message) = json_error 400 invalid_schema message none
  handle_pull env authorization (ok pull) =
      pull_valid env authorization pull (host.pull_errors pull)
