-- ===== src/SyncClient/Tests.antt =====
-- A device and the worker of packages/sync-client/src/index.ts, at concrete states.
use carpe_os.Common.{
  ◌+◌, ◌*◌, ◌≤◌, length, ◌≡◌, refl, String, true, str_eq, if◌then◌else◌, Option, none, some, [],
  ◌∷◌, arith, Fallible, threw,
}
use carpe_os.Common.Table.{find}
use carpe_os.Common.Text.{◌<>◌, decimal}
use carpe_os.Schema.{SyncPullRequest, ProtectedValueUploadIntent, ProtectedValueMetadata}
use carpe_os.Capture.SyncAdmission.{remote_thin_promoted_v1}
use carpe_os.SyncWorker.Store.{
  Env, get_sync_request, get_protected_upload, has_erasure, has_event, has_link, head_object,
  next_sequence, last_sequence,
}
use carpe_os.SyncWorker.Push.{
  handle_push, push_new, accept_erasure, accept_event, accept_record, commit_push,
  has_erasure_sequence, has_event_sequence, link_value, push_authorized, push_checked, push_single,
  push_valid, replay_or_conflict,
}
use carpe_os.SyncWorker.Pull.{
  event_rows, erasure_rows, comes_before, insert_row, order_rows, zone_log,
}
use carpe_os.LocalStore.Store.{LocalStore}
use carpe_os.LocalStore.Inbox.{Host, get_sync_cursor}
use carpe_os.LocalStore.Outbox.{
  LeasedOutboxItem, ack_outbox, count_finished, finish_row, may_finish, retry_outbox,
}
use carpe_os.SyncClient.Pulled.{Pulled}
use carpe_os.SyncClient.Pull.{PullTransport, ProtectedValueDownload, pull_pages}
use carpe_os.SyncClient.Synced.{IsSynced}
use carpe_os.SyncClient.Paging.{served}
use carpe_os.SyncClient.Whole.{Completes, pull_pages-Completes}
use carpe_os.SyncClient.Push.{
  Attempt, done, PushHost, Coordinator, push_item, settle_push, send,
  export_protected_value_for_sync, ensure_protected_value_uploaded, read_push, block,
  is_retryable_status, matches_intent, retry, read_receipt, upload_found, upload_after,
}
use carpe_os.SyncClient.Delivered.{Connection, is_acked, worker_transport, push_item-Records}
use carpe_os.SyncWorker.Told.{Named, an_event, an_erasure, IsBacked, Records}
use carpe_os.SyncWorker.Samples.{
  host as worker, token, empty, push_1, two, two-IsFilledIn, two-IsRecorded,
}
use carpe_os.SyncWorker.Receipts.{
  authorize, is_authorized, validate_single_record_push, validate_protected_receipt,
  authorize_token, get_protected_value_ref, is_known, ref_of_payload,
}
use carpe_os.Common.Code.{starts_with, text_length, text_drop, hex_lower, text_take}
use carpe_os.SyncWorker.Uploads.{upsert_protected_value_receipt, has_other_upload}
use carpe_os.SyncWorker.Puts.{handle_protected_value_put, put_authorized, put_object}

abbrev device : LocalStore
device = record {
  trust_zone_id = "tz_1";
  client_id = "client_1";
  canonical_events = [];
  protected_values =
      record {
        protected_value_id = "pv_1";
        vault_ref = "vault_local";
        key_ref = "key_local_active";
        nonce_ref = "nonce_1";
        tag_ref = "tag_1";
        sealed = record {
          nonce = [];
          tag = [];
          ciphertext = 1 ∷ [];
          plaintext_digest = "d";
          size_bytes = 1;
        };
      }
      ∷ [];
  outbox = [];
  dispositions = [];
  inbox_events = [];
  inbox_erasures = [];
  imports = [];
  cursors = [];
}

abbrev host : Host
host = record {
  event_errors = λ e. none;
  erasure_errors = λ x. none;
  metadata_errors = λ m. none;
  hash_hex = λ bytes. "d";
  reseal = λ m bytes. threw "no value";
}

abbrev authorization : Option String
authorization = some ("Bearer " <> token)

abbrev values : (id zone digest : String) → Fallible ProtectedValueDownload
values id zone digest = threw "no value"

abbrev errors : SyncPullRequest → Option String
errors q = none

-- two pages of one record each
two_covered : length (zone_log "tz_1" two) ≤ (get_sync_cursor device).after_sequence + 2 * 1
unfolding zone_log event_rows erasure_rows order_rows insert_row comes_before get_sync_cursor find
two_covered = omega arith

device-IsSynced : IsSynced two "tz_1" device
unfolding get_sync_cursor find
device-IsSynced = (refl, tt)

pull_pages-Completes_example :
    Completes two "tz_1"
      (pull_pages host (served worker two authorization values errors) 2 1 device)
pull_pages-Completes_example =
    pull_pages-Completes worker two authorization host values errors "tz_1" 1 two-IsFilledIn
      two-IsRecorded 2 device device-IsSynced two_covered

abbrev server : PullTransport
server = served worker two authorization values errors

abbrev coordinator : Coordinator
coordinator = record { retry_delay_ms = 1000; lease_ms = 30000; policy = remote_thin_promoted_v1 }

abbrev push_host : PushHost
push_host = record {
  hash_hex = λ bytes. "d";
  base64url = λ bytes. "b";
  wrap_device_key = λ zone id key. "w";
  intent_errors = λ i. none;
  sanitize = λ s. s;
}

abbrev head : Env → ProtectedValueUploadIntent → Attempt (Option ProtectedValueMetadata)
head env i = done none

abbrev connection : Connection
connection = record {
  worker = worker;
  upload = record {
    sha256_hex = worker.sha256_hex;
    hash_hex = λ bytes. "d";
    intent_errors = λ i. none;
  };
  authorization = authorization;
  client_id = "client_1";
  now = "2026-01-01T00:00:00Z";
  head = head;
}

abbrev leased_item : LeasedOutboxItem
leased_item = record {
  outbox_id = 1;
  event_id = "evt_1";
  protected_value_id = "pv_1";
  local_sequence = 1;
  attempts = 1;
  push_request = push_1;
}

acked_item :
    is_acked
      (push_item coordinator push_host
        (worker_transport connection)
        device
        empty
        "lease_1"
        10
        leased_item).0
    ≡ true
unfolding push_item find settle_push send export_protected_value_for_sync
    ensure_protected_value_uploaded read_push block is_retryable_status matches_intent retry
    handle_push push_new accept_erasure accept_event accept_record commit_push has_erasure_sequence
    has_event_sequence link_value push_authorized push_checked push_single push_valid
    replay_or_conflict authorize is_authorized validate_single_record_push
    validate_protected_receipt authorize_token get_protected_value_ref is_known ref_of_payload
    starts_with text_length text_drop hex_lower text_take decimal ack_outbox count_finished
    finish_row may_finish retry_outbox get_sync_request get_protected_upload has_erasure has_event
    has_link head_object next_sequence last_sequence read_receipt upload_found upload_after
    handle_protected_value_put put_authorized put_object upsert_protected_value_receipt
    has_other_upload
acked_item = refl

abbrev names : String → Named
names fingerprint = if str_eq fingerprint "fp" then an_event "evt_1" else an_erasure "ers_1"

push_item-Records_example :
    IsBacked names
      (push_item coordinator push_host
        (worker_transport connection)
        device
        empty
        "lease_1"
        10
        leased_item).2
    × Records names
        (push_item coordinator push_host
          (worker_transport connection)
          device
          empty
          "lease_1"
          10
          leased_item).2
        push_1
push_item-Records_example =
    push_item-Records names connection coordinator push_host device empty "lease_1" 10 leased_item
      tt refl acked_item
