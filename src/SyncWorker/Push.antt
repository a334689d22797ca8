-- ===== src/SyncWorker/Push.antt =====
-- apps/carpeos-sync-worker/src/index.ts: `handlePush`. What a batch of statements inserts it inserts
-- whole, or, when a constraint fails, not at all. Between the check for an earlier request and the
-- batch other pushes may commit, so that `commit_push` runs in the state that it finds.
use carpe_os.Common.{
  ℕ, String, Bool, true, false, not, ◌&&◌, ◌||◌, ◌==◌, Option, none, some, List, [], ◌∷◌, ◌++◌,
  str_eq, if◌then◌else◌, Fallible, ok, threw, guard, ◌>>◌,
}
use carpe_os.Common.Code.{hex_lower}
use carpe_os.Schema.{
  ProtectedValueRef, CanonicalEvent, ErasureLedgerRecord, linked, SyncErrorItem, SyncPushRequest,
  SyncPullRequest, SyncPushResult, accepted, replay, idempotency_conflict, invalid_schema,
  replay_notice, key_conflict, internal_error,
}
use carpe_os.SyncWorker.Store.{
  SyncRequestRow, EventRow, ErasureRow, ProtectedUploadRow, Env, push_result, Response,
  json_response, json_error, get_sync_request, last_sequence, next_sequence, has_event, has_erasure,
  has_link,
}
use carpe_os.SyncWorker.Receipts.{
  get_protected_value_ref, authorize, sync_error_item, first, validate_single_record_push,
  validate_protected_receipt,
}

-- what the code calls that is not modelled: the platform's hash and the validators that a generator
-- writes, with the text of what they find
pub record Host : Type 0 where
  pub sha256_hex : String → String
  pub push_errors : SyncPushRequest → Option String
  pub pull_errors : SyncPullRequest → Option String

module _ (zone : String) where
  -- UNIQUE (trust_zone_id, zone_sequence), in either table
  unfoldable pub has_event_sequence : ℕ → List EventRow → Bool
  has_event_sequence n [] = false
  has_event_sequence n (r ∷ rs) =
      (str_eq r.trust_zone_id zone && r.zone_sequence == n) || has_event_sequence n rs

  unfoldable pub has_erasure_sequence : ℕ → List ErasureRow → Bool
  has_erasure_sequence n [] = false
  has_erasure_sequence n (r ∷ rs) =
      (str_eq r.trust_zone_id zone && r.zone_sequence == n) || has_erasure_sequence n rs

  -- UPDATE protected_value_uploads SET status = 'linked'
  link_uploads : ProtectedValueRef → List ProtectedUploadRow → List ProtectedUploadRow
  link_uploads r [] = []
  link_uploads r (u ∷ us) =
      let others = link_uploads r us in
      if str_eq u.protected_value_id r.protected_value_id
        && str_eq u.trust_zone_id zone
        && str_eq u.original_ciphertext_digest_value (hex_lower r.encrypted_blob.digest.value)
        && (u.original_ciphertext_size_bytes == r.encrypted_blob.size_bytes)
      then record u { status = linked } ∷ others
      else u ∷ others

-- the number that the batch gives: `last_sequence` after the counter has been advanced
abbrev pub given_sequence : Env → String → ℕ
given_sequence env zone = last_sequence zone (next_sequence zone env.counters)

abbrev pub accepted_result : SyncPushRequest → (events erasures : List String) → ℕ → SyncPushResult
accepted_result request events erasures n = record {
  request_id = request.request_id;
  status = accepted;
  accepted_event_ids = events;
  accepted_erasure_ids = erasures;
  zone_sequences = record { trust_zone_id = request.trust_zone_id; last_sequence = n } ∷ [];
  replay_of = none;
  conflict_with = none;
  errors = [];
}

abbrev pub request_row : SyncPushRequest → SyncPushResult → SyncRequestRow
request_row request result = record {
  trust_zone_id = request.trust_zone_id;
  idempotency_key = request.idempotency_key;
  request_fingerprint = request.request_fingerprint;
  result_json = result;
}

-- `json_set(event, '$.zone_sequence', n)`
abbrev pub event_row : SyncPushRequest → CanonicalEvent → ℕ → EventRow
event_row request e n = record {
  trust_zone_id = request.trust_zone_id;
  zone_sequence = n;
  event_id = e.event_id;
  recorded_time_start = e.recorded_start;
  event_json = record e { zone_sequence = some n };
}

abbrev pub erasure_row : SyncPushRequest → ErasureLedgerRecord → ℕ → ErasureRow
erasure_row request x n = record {
  trust_zone_id = request.trust_zone_id;
  zone_sequence = n;
  erasure_id = x.erasure_id;
  requested_at = x.requested_at;
  erasure_json = record x { zone_sequence = some n };
}

abbrev pub is_some {ℓ} : {A : Type ℓ} → Option A → Bool
is_some none = false
is_some (some a) = true

-- the rows that a protected value adds to a batch
unfoldable pub link_value :
    Env → SyncPushRequest → CanonicalEvent → Option ProtectedValueRef → Fallible Env
unfolding link_uploads
link_value env request e none = ok env
link_value env request e (some r) =
    if has_link r.protected_value_id e.event_id env.links
    then threw "UNIQUE constraint failed: protected_value_links"
    else ok (record env {
      uploads = link_uploads request.trust_zone_id r env.uploads;
      links =
          env.links
          ++ record { protected_value_id = r.protected_value_id; event_id = e.event_id } ∷ [];
    })

abbrev pub place_event : Env → SyncPushRequest → CanonicalEvent → ℕ → Env
place_event env request e n = record env {
  requests =
      env.requests ++ request_row request (accepted_result request (e.event_id ∷ []) [] n) ∷ [];
  counters = next_sequence request.trust_zone_id env.counters;
  events = env.events ++ event_row request e n ∷ [];
}

abbrev pub place_erasure : Env → SyncPushRequest → ErasureLedgerRecord → ℕ → Env
place_erasure env request x n = record env {
  requests =
      env.requests ++ request_row request (accepted_result request [] (x.erasure_id ∷ []) n) ∷ [];
  counters = next_sequence request.trust_zone_id env.counters;
  erasures = env.erasures ++ erasure_row request x n ∷ [];
}

-- PRIMARY KEY (trust_zone_id, idempotency_key)
abbrev pub has_request : Env → SyncPushRequest → Bool
has_request env request =
    is_some (get_sync_request request.trust_zone_id request.idempotency_key env.requests)

unfoldable pub accept_event :
    Env → SyncPushRequest → CanonicalEvent → Option ProtectedValueRef → Fallible Env
accept_event env request e ref = do
  let zone = request.trust_zone_id
  let n = given_sequence env zone
  guard (not (has_request env request)) "UNIQUE constraint failed: sync_requests"
  guard (not (has_event zone e.event_id env.events || has_event_sequence zone n env.events))
      "UNIQUE constraint failed: canonical_events"
  link_value (place_event env request e n) request e ref

unfoldable pub accept_erasure : Env → SyncPushRequest → ErasureLedgerRecord → Fallible Env
accept_erasure env request x = do
  let zone = request.trust_zone_id
  let n = given_sequence env zone
  guard (not (has_request env request)) "UNIQUE constraint failed: sync_requests"
  guard
      (not (has_erasure zone x.erasure_id env.erasures || has_erasure_sequence zone n env.erasures))
      "UNIQUE constraint failed: erasure_ledger"
  ok (place_erasure env request x n)

unfoldable pub replay_or_conflict : SyncRequestRow → SyncPushRequest → Response
replay_or_conflict existing request =
    if str_eq existing.request_fingerprint request.request_fingerprint
    then json_response
        (push_result (record (existing.result_json) {
          request_id = request.request_id;
          status = replay;
          replay_of = some request.idempotency_key;
          errors =
              record {
                code = replay_notice;
                message = "Idempotent replay returned persisted result";
                ref_id = none;
              }
              ∷ [];
        }))
        200
    else json_response
        (push_result (record {
          request_id = request.request_id;
          status = idempotency_conflict;
          accepted_event_ids = [];
          accepted_erasure_ids = [];
          zone_sequences = [];
          replay_of = none;
          conflict_with = some request.idempotency_key;
          errors =
              record {
                code = key_conflict;
                message = "Idempotency key already exists with a different request fingerprint";
                ref_id = none;
              }
              ∷ [];
        }))
        409

unfoldable pub accept_record :
    Env → SyncPushRequest → Option CanonicalEvent → Option ErasureLedgerRecord → Fallible Env
accept_record env request (some e) x = accept_event env request e (get_protected_value_ref e)
accept_record env request none (some x) = accept_erasure env request x
accept_record env request none none = ok env

abbrev pub persisted : Option SyncRequestRow → Response
persisted none = json_error 500 internal_error "Accepted push response was not persisted" none
persisted (some row) = json_response (push_result row.result_json) 200

abbrev pub refused : Option SyncRequestRow → SyncPushRequest → Response
refused none request =
    json_error 409 key_conflict "Push conflicted with an existing canonical row" none
refused (some row) request = replay_or_conflict row request

abbrev pub request_of : Env → SyncPushRequest → Option SyncRequestRow
request_of env request = get_sync_request request.trust_zone_id request.idempotency_key env.requests

abbrev pub settle : Env → SyncPushRequest → Fallible Env → Response × Env
settle env request (ok env') = (persisted (request_of env' request), env')
settle env request (threw message) = (refused (request_of env request) request, env)

-- from the `try` on
unfoldable pub commit_push : Env → SyncPushRequest → Response × Env
commit_push env request =
    settle env request (accept_record env request (first request.events) (first request.erasures))

-- an event that is there with a protected value is checked
abbrev pub ref_of : Option CanonicalEvent → Option ProtectedValueRef
ref_of none = none
ref_of (some e) = get_protected_value_ref e

unfoldable pub push_checked : Env → SyncPushRequest → Option SyncErrorItem → Response × Env
push_checked env request (some e) = (sync_error_item e, env)
push_checked env request none = commit_push env request

unfoldable pub push_new : Env → SyncPushRequest → Option SyncRequestRow → Response × Env
unfolding push_checked
push_new env request (some row) = (replay_or_conflict row request, env)
push_new env request none =
    push_checked env request
      (validate_protected_receipt env request (ref_of (first request.events)))

unfoldable pub push_single : Env → SyncPushRequest → Option SyncErrorItem → Response × Env
push_single env request (some e) = (sync_error_item e, env)
push_single env request none = push_new env request (request_of env request)

unfoldable pub push_authorized : Env → SyncPushRequest → Option Response → Response × Env
unfolding push_single
push_authorized env request (some refusal) = (refusal, env)
push_authorized env request none = push_single env request (validate_single_record_push request)

module _ (host : Host) where
  unfoldable pub push_valid : Env → Option String → SyncPushRequest → Option String → Response × Env
  unfolding push_authorized
  push_valid env authorization request (some errors) =
      (json_error 400 invalid_schema errors none, env)
  push_valid env authorization request none = push_authorized env request (
      authorize (host.sha256_hex) authorization request.client_id request.trust_zone_id
        env.authorizations)

  -- the body has been read as JSON, or not
  unfoldable pub handle_push : Env → Option String → Fallible SyncPushRequest → Response × Env
  unfolding push_valid
  handle_push env authorization (threw message) = (json_error 400 invalid_schema message none, env)
  handle_push env authorization (ok request) =
      push_valid env authorization request (host.push_errors request)
