-- ===== src/SyncWorker/Tests.antt =====
-- Concrete states of apps/carpeos-sync-worker/src/index.ts.
use carpe_os.Common.{
  ◌≡◌, ◌≤◌, refl, none, some, List, [], ◌∷◌, ◌++◌, take, drop, ltb, length, false, ok, All,
}
use carpe_os.Common.Text.{◌<>◌}
use carpe_os.Schema.{
  SyncPullRequest, aes_256_gcm, ProtectedValueRef, ProtectedValueUploadIntent,
  ProtectedValueUploadReceipt, uploaded, SyncPushRequest,
}
use carpe_os.SyncWorker.Store.{last_sequence, Env, receipt, json_response, head_object}
use carpe_os.SyncWorker.Receipts.{
  validate_single_record_push, authorize, authorize_token, is_authorized,
  validate_protected_receipt,
}
use carpe_os.SyncWorker.Pull.{event_rows, erasure_rows, order_rows, zone_log, page_of, pull_page}
use carpe_os.SyncWorker.Sequences.{IsSequenced}
use carpe_os.SyncWorker.Runs.{
  PushStep, whole, late, run, promised, acceptances, run_refines, run_accepts_once,
}
use carpe_os.SyncWorker.Pages.{pull_page_lem}
use carpe_os.SyncWorker.Samples.{
  host, token, empty, push_of, push_1, two, two-IsFilledIn, two-IsRecorded,
}
use carpe_os.Common.Code.{hex_lower, text_drop, text_take, text_length, starts_with}
use carpe_os.SyncWorker.Uploads.{
  receipt_from_intent, has_other_upload, upsert_protected_value_receipt,
}
use carpe_os.SyncWorker.Puts.{
  UploadHost, PutRequest, put_object, put_authorized, handle_protected_value_put,
}
use carpe_os.SyncWorker.Confirmed.{IsFor, put_accepted}
use carpe_os.SyncWorker.Downloads.{
  ReadRequest, ReadHost, explicit_trust_zone_id, handle_protected_value_read,
}
use carpe_os.SyncWorker.Bucket.{IsWhole}
use carpe_os.SyncWorker.Readback.{Gives, read_put}

push_1_single : validate_single_record_push push_1 ≡ none
unfolding validate_single_record_push
push_1_single = refl

-- a push, another, the first again, and one of it that was checked before
abbrev steps : List PushStep
steps =
    whole (some ("Bearer " <> token)) push_1
    ∷ whole (some ("Bearer " <> token)) (push_of "evt_2")
    ∷ whole (some ("Bearer " <> token)) push_1
    ∷ late push_1 push_1_single
    ∷ []

empty-IsSequenced : IsSequenced empty
unfolding last_sequence event_rows erasure_rows order_rows
empty-IsSequenced zone = record {
  events_bounded = tt;
  erasures_bounded = tt;
  numbered = tt;
  filled = refl;
}

run_refines_example :
    IsSequenced (run host empty steps)
    × (zone_log "tz_1" (run host empty steps)
        ≡ zone_log "tz_1" empty ++ promised host empty steps "tz_1")
run_refines_example = run_refines host empty steps "tz_1" empty-IsSequenced

run_accepts_once_example : acceptances host "tz_1" "evt_1" empty steps ≤ 1
run_accepts_once_example = run_accepts_once host "tz_1" "evt_1" empty steps empty-IsSequenced

abbrev pull : SyncPullRequest
pull = record {
  client_id = "client_1";
  trust_zone_id = "tz_1";
  after_sequence = some 1;
  recorded_after = none;
  limit = 1;
}

pull_page_lem_example :
    pull_page two pull
    ≡ page_of
        (take 1 (drop 1 (zone_log "tz_1" two)))
        (ltb 1 (length (drop 1 (zone_log "tz_1" two))))
pull_page_lem_example = pull_page_lem two pull two-IsFilledIn two-IsRecorded refl

abbrev upload_host : UploadHost
upload_host = record { sha256_hex = λ s. s <> "#"; hash_hex = λ b. "ab"; intent_errors = λ i. none }

abbrev value_intent : ProtectedValueUploadIntent
value_intent = record {
  protected_value_id = "pv_1";
  trust_zone_id = "tz_1";
  vault_ref = "vault_1";
  key_ref = "key_1";
  object_key = "protected-values/tz_1/pv_1/ab";
  ciphertext_nonce = "n";
  ciphertext_auth_tag = "t";
  original_ciphertext_digest = record { algorithm = "sha-256"; value = "AB" };
  original_ciphertext_size_bytes = 1;
  nonce_ref = some "nonce_1";
  tag_ref = some "tag_1";
  wrapped_device_key = "{}";
}

abbrev put_request : PutRequest
put_request = record {
  authorization = some ("Bearer " <> token);
  client_id = some "client_1";
  intent = some (ok value_intent);
  bytes = 7 ∷ [];
  now = "2026-01-01T00:00:00Z";
}

abbrev value_receipt : ProtectedValueUploadReceipt
value_receipt = receipt_from_intent value_intent uploaded "2026-01-01T00:00:00Z"

abbrev after_put : Env
after_put = (handle_protected_value_put upload_host empty put_request "pv_1").1

put_answered :
    handle_protected_value_put upload_host empty put_request "pv_1"
    ≡ (ok (json_response (receipt value_receipt) 200), after_put)
unfolding handle_protected_value_put authorize authorize_token is_authorized starts_with text_length
    text_drop text_take hex_lower put_authorized put_object head_object
    upsert_protected_value_receipt has_other_upload
put_answered = refl

abbrev value_ref : ProtectedValueRef
value_ref = record {
  protected_value_id = "pv_1";
  vault_ref = "vault_1";
  key_ref = "key_1";
  encrypted_blob = record {
    algorithm = aes_256_gcm;
    digest = record { algorithm = "sha-256"; value = "Ab" };
    size_bytes = 1;
    nonce_ref = "nonce_1";
    tag_ref = "tag_1";
  };
}

value_ref-IsFor : IsFor value_intent value_ref
unfolding hex_lower
value_ref-IsFor = record {
  id = refl;
  digest = refl;
  size = refl;
  vault = refl;
  key = refl;
  nonce = refl;
  tag = refl;
}

abbrev value_push : SyncPushRequest
value_push = record push_1 { protected_value_receipts = value_receipt ∷ [] }

put_accepted_example : validate_protected_receipt after_put value_push (some value_ref) ≡ none
put_accepted_example =
    put_accepted upload_host empty after_put put_request "pv_1" value_intent value_receipt
      value_push value_ref refl put_answered refl refl value_ref-IsFor

abbrev reader : ReadHost
reader = record { trim = λ s. s; sha256_hex = λ s. s <> "#" }

abbrev get_request : ReadRequest
get_request = record {
  is_head = false;
  authorization = some ("Bearer " <> token);
  client_id = some "client_1";
  trust_zone_header = some "tz_1";
  trust_zone_query = none;
  digest_header = none;
}

get_zone : explicit_trust_zone_id (reader.trim) get_request ≡ some "tz_1"
unfolding explicit_trust_zone_id text_length
get_zone = refl

get_allowed :
    authorize
      (reader.sha256_hex)
      get_request.authorization
      "client_1"
      "tz_1"
      after_put.authorizations
    ≡ none
unfolding handle_protected_value_put authorize authorize_token is_authorized starts_with text_length
    text_drop text_take hex_lower put_authorized put_object head_object
    upsert_protected_value_receipt has_other_upload
get_allowed = refl

read_put_example :
    All (IsWhole (upload_host.hash_hex)) after_put.objects
    × Gives after_put value_intent get_request.is_head
        (upload_host.hash_hex)
        put_request.bytes
        (handle_protected_value_read reader after_put get_request "pv_1")
read_put_example =
    read_put upload_host reader empty after_put put_request "pv_1" value_intent value_receipt
      get_request "client_1" tt refl put_answered refl get_zone get_allowed
