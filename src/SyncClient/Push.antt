-- ===== src/SyncClient/Push.antt =====
-- packages/sync-client/src/index.ts: `pushOne`, with the upload of the protected value and the call of
-- packages/local-store/src/store.ts that exports it.
use carpe_os.Common.{
  ℕ, String, Bool, ◌&&◌, ◌||◌, ◌==◌, Option, none, some, List, [], ◌∷◌, str_eq, leb, length,
  if◌then◌else◌, Fallible, ok, ◌>>=◌,
}
use carpe_os.Common.Text.{◌<>◌, decimal}
use carpe_os.Common.Code.{text_drop}
use carpe_os.Common.Table.{find}
use carpe_os.Schema.{
  ProtectedValueUploadIntent, ProtectedValueUploadReceipt, ProtectedValueMetadata, already_exists,
  SyncPushRequest, SyncPushResult, PushStatus, accepted, replay, idempotency_conflict,
  partial_error,
}
use carpe_os.Capture.SyncAdmission.{SyncAdmissionPolicyId}
use carpe_os.SyncWorker.Receipts.{first}
use carpe_os.SyncWorker.Store.{Body, push_result, receipt, Response}
use carpe_os.LocalStore.Store.{ProtectedValueRow, LocalStore, value_key}
use carpe_os.LocalStore.Outbox.{LeasedOutboxItem, lease_outbox, ack_outbox, retry_outbox}
use carpe_os.SyncClient.Pull.{is_success}

-- what a call of the transport may end in: a value, a status that is no success, or another error
pub data Attempt {ℓ} (A : Type ℓ) : Type ℓ where
  done : A → Attempt A
  http_error : (status : ℕ) (message : String) → Attempt A
  other_error : (message : String) → Attempt A

abbrev pub bind_attempt : {A B : Type 0} → Attempt A → (A → Attempt B) → Attempt B
bind_attempt (done a) f = f a
bind_attempt (http_error status m) f = http_error status m
bind_attempt (other_error m) f = other_error m

-- what the code calls that is not modelled: the platform's hash and encodings, the wrapping of the
-- key of the device, the validators that a generator writes, and the cleaning of an error's text
pub record PushHost : Type 0 where
  pub hash_hex : List ℕ → String
  pub base64url : List ℕ → String
  pub wrap_device_key : (zone protected_value_id key_ref : String) → String
  pub intent_errors : ProtectedValueUploadIntent → Option String
  pub sanitize : String → String

-- the server, whose state is an `R`: reading what it has, an upload, and a push
pub record PushTransport (R : Type 0) : Type 0 where
  pub head_protected_value :
      R → ProtectedValueUploadIntent → Attempt (Option ProtectedValueMetadata)
  pub put_protected_value :
      R
      → ProtectedValueUploadIntent
      → (ciphertext : List ℕ) → Attempt ProtectedValueUploadReceipt × R
  pub fetch_push : R → SyncPushRequest → Response × R

abbrev pub push_body : Body → Attempt SyncPushResult
push_body (push_result r) = done r
push_body _ = other_error "invalid sync push result"

-- `SyncHttpTransport.push`
unfoldable pub read_push : Response → Attempt SyncPushResult
read_push response =
    if is_success response.status
    then push_body response.body
    else http_error response.status ("sync request failed (HTTP " <> decimal response.status <> ")")

abbrev pub receipt_body : Body → Attempt ProtectedValueUploadReceipt
receipt_body (receipt r) = done r
receipt_body _ = other_error "invalid protected value upload receipt"

-- `SyncHttpTransport.putProtectedValue`, from its response on
unfoldable pub read_receipt : Response → Attempt ProtectedValueUploadReceipt
read_receipt response =
    if is_success response.status
    then receipt_body response.body
    else http_error response.status ("sync request failed (HTTP " <> decimal response.status <> ")")

unfoldable pub is_retryable_status : ℕ → Bool
is_retryable_status status = status == 408 || status == 425 || status == 429 || leb 500 status

pub record ProtectedValueTransferExport : Type 0 where
  pub ciphertext : List ℕ
  pub intent : ProtectedValueUploadIntent

abbrev object_key : (zone id digest : String) → String
object_key zone id digest = "protected-values/" <> zone <> "/" <> id <> "/" <> digest

module _ (host : PushHost) where
  abbrev intent_of : LocalStore → ProtectedValueRow → ProtectedValueUploadIntent
  intent_of s row = record {
    protected_value_id = row.protected_value_id;
    trust_zone_id = s.trust_zone_id;
    vault_ref = row.vault_ref;
    key_ref = row.key_ref;
    object_key =
        object_key s.trust_zone_id row.protected_value_id (host.hash_hex row.sealed.ciphertext);
    ciphertext_nonce = host.base64url row.sealed.nonce;
    ciphertext_auth_tag = host.base64url row.sealed.tag;
    original_ciphertext_digest = record {
      algorithm = "sha-256";
      value = host.hash_hex row.sealed.ciphertext;
    };
    original_ciphertext_size_bytes = length row.sealed.ciphertext;
    nonce_ref = some row.nonce_ref;
    tag_ref = some row.tag_ref;
    wrapped_device_key = host.wrap_device_key s.trust_zone_id row.protected_value_id row.key_ref;
  }

  checked_export :
      LocalStore → ProtectedValueRow → Option String → Attempt ProtectedValueTransferExport
  checked_export s row (some errors) =
      other_error ("invalid protected value upload intent: " <> errors)
  checked_export s row none =
      done (record { ciphertext = row.sealed.ciphertext; intent = intent_of s row })

  export_found :
      LocalStore → String → Option ProtectedValueRow → Attempt ProtectedValueTransferExport
  unfolding checked_export
  export_found s id none = other_error ("protected value not found: " <> id)
  export_found s id (some row) = checked_export s row (host.intent_errors (intent_of s row))

  unfoldable pub export_protected_value_for_sync :
      LocalStore → (protected_value_id : String) → Attempt ProtectedValueTransferExport
  unfolding export_found
  export_protected_value_for_sync s id = export_found s id (find value_key id s.protected_values)

-- the existing value is the one to upload
unfoldable pub matches_intent : ProtectedValueMetadata → ProtectedValueUploadIntent → Bool
matches_intent m i =
    str_eq m.original_ciphertext_digest.algorithm i.original_ciphertext_digest.algorithm
    && str_eq m.original_ciphertext_digest.value i.original_ciphertext_digest.value
    && (m.original_ciphertext_size_bytes == i.original_ciphertext_size_bytes)

abbrev recovered_receipt : ProtectedValueMetadata → ProtectedValueUploadReceipt
recovered_receipt m = record {
  protected_value_id = m.protected_value_id;
  trust_zone_id = m.trust_zone_id;
  object_key = m.object_key;
  original_ciphertext_digest = m.original_ciphertext_digest;
  original_ciphertext_size_bytes = m.original_ciphertext_size_bytes;
  uploaded_at = m.uploaded_at;
  status = already_exists;
  upload_receipt_id = "receipt_" <> text_drop 3 m.protected_value_id <> "_recovered";
}

pub data PushOneResult : Type 0 where
  acked : (outbox_id : ℕ) → PushStatus → SyncPushResult → PushOneResult
  retried : (outbox_id : ℕ) → (error : String) → PushOneResult
  blocked : (outbox_id : ℕ) → (reason : String) → Option SyncPushResult → PushOneResult

-- what the coordinator is set up with
pub record Coordinator : Type 0 where
  pub retry_delay_ms : ℕ
  pub lease_ms : ℕ
  pub policy : SyncAdmissionPolicyId

module _ {R : Type 0} where
  module _ (transport : PushTransport R) where
    unfoldable pub upload_found :
        R
        → ProtectedValueTransferExport
        → Option ProtectedValueMetadata
        → Attempt ProtectedValueUploadReceipt × R
    upload_found remote t none = transport.put_protected_value remote t.intent t.ciphertext
    upload_found remote t (some m) =
        if matches_intent m t.intent
        then (done (recovered_receipt m), remote)
        else transport.put_protected_value remote t.intent t.ciphertext

    unfoldable pub upload_after :
        R
        → ProtectedValueTransferExport
        → Attempt (Option ProtectedValueMetadata)
        → Attempt ProtectedValueUploadReceipt × R
    unfolding upload_found
    upload_after remote t (done o) = upload_found remote t o
    upload_after remote t (http_error status m) = (http_error status m, remote)
    upload_after remote t (other_error m) = (other_error m, remote)

    unfoldable pub ensure_protected_value_uploaded :
        R → ProtectedValueTransferExport → Attempt ProtectedValueUploadReceipt × R
    unfolding upload_after
    ensure_protected_value_uploaded remote t =
        upload_after remote t (transport.head_protected_value remote t.intent)

    -- `{ ...item.push_request, protected_value_receipts: [receipt] }`
    abbrev pub with_receipt : SyncPushRequest → ProtectedValueUploadReceipt → SyncPushRequest
    with_receipt request given = record request { protected_value_receipts = given ∷ [] }

    abbrev pub push_with :
        SyncPushRequest → Attempt ProtectedValueUploadReceipt × R → Attempt SyncPushResult × R
    push_with request (done given, remote) =
        let (response, remote') = transport.fetch_push remote (with_receipt request given) in
        (read_push response, remote')
    push_with request (http_error status m, remote) = (http_error status m, remote)
    push_with request (other_error m, remote) = (other_error m, remote)

    abbrev pub send_export :
        R → SyncPushRequest → Attempt ProtectedValueTransferExport → Attempt SyncPushResult × R
    send_export remote request (done t) =
        push_with request (ensure_protected_value_uploaded remote t)
    send_export remote request (http_error status m) = (http_error status m, remote)
    send_export remote request (other_error m) = (other_error m, remote)

  -- the body of the `try`
  unfoldable pub send :
      PushTransport R → PushHost → LocalStore → R → LeasedOutboxItem → Attempt SyncPushResult × R
  send transport host s remote i =
      send_export transport remote i.push_request
        (export_protected_value_for_sync host s i.protected_value_id)

module _ (coordinator : Coordinator) (host : PushHost) where
  unfoldable pub retry :
      LocalStore → LeasedOutboxItem → (lease error : String) (now : ℕ) → PushOneResult × LocalStore
  retry s i lease error now = (
    retried i.outbox_id error,
    (retry_outbox s i.outbox_id lease (coordinator.retry_delay_ms) error now).1,
  )

  unfoldable pub block :
      LocalStore
      → LeasedOutboxItem
      → (lease reason : String) (now : ℕ) → Option SyncPushResult
      → PushOneResult × LocalStore
  block s i lease reason now result =
      (blocked i.outbox_id reason result, (retry_outbox s i.outbox_id lease 0 reason now).1)

  abbrev pub answered :
      LocalStore
      → LeasedOutboxItem
      → (lease : String) (now : ℕ) → SyncPushResult
      → PushStatus
      → PushOneResult × LocalStore
  answered s i lease now result accepted =
      (acked i.outbox_id accepted result, (ack_outbox s i.outbox_id lease now).1)
  answered s i lease now result replay =
      (acked i.outbox_id replay result, (ack_outbox s i.outbox_id lease now).1)
  answered s i lease now result partial_error = retry s i lease "remote partial_error" now
  answered s i lease now result idempotency_conflict =
      block s i lease "remote idempotency_conflict" now (some result)

  unfoldable pub settle_push :
      LocalStore
      → LeasedOutboxItem
      → (lease : String) (now : ℕ) → Attempt SyncPushResult
      → PushOneResult × LocalStore
  settle_push s i lease now (done result) = answered s i lease now result result.status
  settle_push s i lease now (http_error status m) =
      if is_retryable_status status
      then retry s i lease (host.sanitize m) now
      else block s i lease (host.sanitize m) now none
  settle_push s i lease now (other_error m) = retry s i lease (host.sanitize m) now

  module _ {R : Type 0} (transport : PushTransport R) where
    unfoldable pub push_item :
        LocalStore
        → R
        → (lease : String) (now : ℕ) → LeasedOutboxItem
        → PushOneResult × LocalStore × R
    push_item s remote lease now i =
        if str_eq i.push_request.trust_zone_id s.trust_zone_id
        then (let (attempt, remote') = send transport host s remote i in
            let (result, s') = settle_push s i lease now attempt in (result, s', remote'))
        else (let (result, s') =
              block s i lease
                ("outbox trust zone mismatches store; re-run with --trust-zone "
                  <> i.push_request.trust_zone_id)
                now none in
            (result, s', remote))

    abbrev pub push_leased :
        LocalStore
        → R
        → (lease : String) (now : ℕ) → Option LeasedOutboxItem
        → Option PushOneResult × LocalStore × R
    push_leased s remote lease now none = (none, s, remote)
    push_leased s remote lease now (some i) =
        let (result, s', remote') = push_item s remote lease now i in (some result, s', remote')

    -- the lease takes one row at most
    unfoldable pub push_one :
        LocalStore
        → R
        → (lease : String) (now : ℕ) → Fallible (Option PushOneResult × LocalStore × R)
    push_one s remote lease now =
        lease_outbox s 1 (coordinator.lease_ms) now (coordinator.policy) lease >>= λ (result, s').
        ok (push_leased s' remote lease now (first result.items))
