-- ===== src/SyncClient/Delivered.antt =====
-- packages/sync-client/src/index.ts and apps/carpeos-sync-worker/src/index.ts: a device that uploads
-- and pushes to the worker marks as delivered only what the worker has.
use carpe_os.Common.{
  ℕ, ◌≡◌, refl, String, Bool, true, false, Option, none, some, List, str_eq, arith, Bool-cases, inl,
  inr, Fallible, ok, threw,
}
use carpe_os.Schema.{
  ProtectedValueUploadIntent, ProtectedValueUploadReceipt, ProtectedValueMetadata, SyncPushRequest,
  SyncPushResult, PushStatus, accepted, replay, partial_error, idempotency_conflict, internal_error,
}
use carpe_os.SyncWorker.Store.{Env, Response, json_error}
use carpe_os.SyncWorker.Push.{Host as WorkerHost, handle_push}
use carpe_os.SyncWorker.Puts.{UploadHost, PutRequest, handle_protected_value_put}
use carpe_os.SyncWorker.Kept.{SameRecords, put-SameRecords}
use carpe_os.SyncWorker.Told.{
  tells, body_tells, Named, IsNamed, IsBacked, Records, handle_push-Tells,
}
use carpe_os.LocalStore.Store.{LocalStore}
use carpe_os.LocalStore.Outbox.{LeasedOutboxItem}
use carpe_os.SyncClient.Push.{
  Attempt, done, http_error, other_error, PushHost, PushTransport, read_push, read_receipt,
  PushOneResult, acked, Coordinator, ProtectedValueTransferExport, matches_intent, upload_found,
  upload_after, ensure_protected_value_uploaded, with_receipt, push_with, send_export, send, retry,
  block, answered, settle_push, push_item,
}

abbrev pub is_acked : PushOneResult → Bool
is_acked (acked id status result) = true
is_acked _ = false

-- how a device reaches the worker: with which credential and name, at which time, and what a HEAD
-- answers, which changes nothing that is looked at here
pub record Connection : Type 0 where
  pub worker : WorkerHost
  pub upload : UploadHost
  pub authorization : Option String
  pub client_id : String
  pub now : String
  pub head : Env → ProtectedValueUploadIntent → Attempt (Option ProtectedValueMetadata)

abbrev pub put_request : Connection → ProtectedValueUploadIntent → List ℕ → PutRequest
put_request c i bytes = record {
  authorization = c.authorization;
  client_id = some c.client_id;
  intent = some (ok i);
  bytes = bytes;
  now = c.now;
}

-- what the worker throws is answered with 500
abbrev pub put_answer : Fallible Response × Env → Attempt ProtectedValueUploadReceipt × Env
put_answer (ok response, env) = (read_receipt response, env)
put_answer (threw m, env) =
    (read_receipt (json_error 500 internal_error "Internal sync worker error" none), env)

-- the worker as the server of a device
abbrev pub worker_transport : Connection → PushTransport Env
worker_transport c = record {
  head_protected_value = c.head;
  put_protected_value = λ env i bytes.
      put_answer
        (handle_protected_value_put (c.upload) env (put_request c i bytes) i.protected_value_id);
  fetch_push = λ env q. handle_push (c.worker) env c.authorization (ok q);
}

abbrev attempt_tells : Attempt SyncPushResult → Bool
attempt_tells (done result) = tells result.status
attempt_tells _ = false

read_push-tells : (r : Response) → attempt_tells (read_push r) ≡ true → body_tells r.body ≡ true
unfolding read_push
read_push-tells r h = ground arith

-- which record a fingerprint is of
module _ (names : String → Named) where
  -- the worker's state after an attempt, and what the attempt tells
  abbrev Tells : SyncPushRequest → Attempt SyncPushResult × Env → Type 0
  Tells request answer =
      IsBacked names (answer.1)
      × (attempt_tells (answer.0) ≡ true → Records names (answer.1) request)

  IsBacked-same : (env env' : Env) → SameRecords env env' → IsBacked names env → IsBacked names env'
  IsBacked-same env env' s h = rw (s.events_same, s.erasures_same, s.requests_same) h

module _ (names : String → Named) (c : Connection) where
  abbrev transport : PushTransport Env
  transport = worker_transport c

  answer-IsBacked :
      (x : Fallible Response × Env) → IsBacked names (x.1) → IsBacked names (put_answer x).1
  answer-IsBacked (ok response, env) h = h
  answer-IsBacked (threw m, env) h = h

  put-IsBacked :
      (env : Env) (i : ProtectedValueUploadIntent) (bytes : List ℕ)
      → IsBacked names env
      → IsBacked names (transport.put_protected_value env i bytes).1
  put-IsBacked env i bytes h =
      answer-IsBacked
        (handle_protected_value_put (c.upload) env (put_request c i bytes) i.protected_value_id)
        (IsBacked-same names env _
          (put-SameRecords (c.upload) env (put_request c i bytes) i.protected_value_id) h)

  found-IsBacked :
      (env : Env) (t : ProtectedValueTransferExport) (o : Option ProtectedValueMetadata)
      → IsBacked names env
      → IsBacked names (upload_found transport env t o).1
  unfolding upload_found
  found-IsBacked env t none h = put-IsBacked env t.intent t.ciphertext h
  found-IsBacked env t (some m) h = elim (Bool-cases (matches_intent m t.intent)) [
    | inl e ↦ rw e h
    | inr e ↦ rw e (put-IsBacked env t.intent t.ciphertext h)
  ]

  after-IsBacked :
      (env : Env) (t : ProtectedValueTransferExport) (x : Attempt (Option ProtectedValueMetadata))
      → IsBacked names env
      → IsBacked names (upload_after transport env t x).1
  unfolding upload_after
  after-IsBacked env t (done o) h = found-IsBacked env t o h
  after-IsBacked env t (http_error status m) h = h
  after-IsBacked env t (other_error m) h = h

  push_with-Tells :
      (request : SyncPushRequest) (x : Attempt ProtectedValueUploadReceipt × Env)
      → IsBacked names (x.1)
      → IsNamed names request
      → Tells names request (push_with transport request x)
  push_with-Tells request (done given, env) b n =
      let (kept, told) =
        handle_push-Tells names (c.worker) env c.authorization
          (with_receipt transport request given) b n in
      (
        kept,
        λ h. told (
            read_push-tells
              (handle_push (c.worker) env c.authorization
                (ok (with_receipt transport request given))).0
              h),
      )
  push_with-Tells request (http_error status m, env) b n = (b, λ h. absurd (ground (arith, h)))
  push_with-Tells request (other_error m, env) b n = (b, λ h. absurd (ground (arith, h)))

  send_export-Tells :
      (env : Env) (request : SyncPushRequest) (x : Attempt ProtectedValueTransferExport)
      → IsBacked names env
      → IsNamed names request
      → Tells names request (send_export transport env request x)
  unfolding ensure_protected_value_uploaded
  send_export-Tells env request (done t) b n =
      push_with-Tells request (ensure_protected_value_uploaded transport env t)
        (after-IsBacked env t (c.head env t.intent) b) n
  send_export-Tells env request (http_error status m) b n = (b, λ h. absurd (ground (arith, h)))
  send_export-Tells env request (other_error m) b n = (b, λ h. absurd (ground (arith, h)))

answered_acked :
    (coordinator : Coordinator) (host : PushHost) (s : LocalStore) (i : LeasedOutboxItem)
    (lease : String) (now : ℕ) (result : SyncPushResult) (status : PushStatus)
    → is_acked (answered coordinator host s i lease now result status).0 ≡ true
    → tells status ≡ true
unfolding retry block
answered_acked coordinator host s i lease now result accepted h = refl
answered_acked coordinator host s i lease now result replay h = refl
answered_acked coordinator host s i lease now result partial_error h = cc
answered_acked coordinator host s i lease now result idempotency_conflict h = cc

settled_acked :
    (coordinator : Coordinator) (host : PushHost) (s : LocalStore) (i : LeasedOutboxItem)
    (lease : String) (now : ℕ) (x : Attempt SyncPushResult)
    → is_acked (settle_push coordinator host s i lease now x).0 ≡ true
    → attempt_tells x ≡ true
unfolding settle_push retry block
settled_acked coordinator host s i lease now (done result) h =
    answered_acked coordinator host s i lease now result result.status h
settled_acked coordinator host s i lease now (http_error status m) h = ground arith
settled_acked coordinator host s i lease now (other_error m) h = cc

-- whatever `pushOne` reports, every request that the worker remembers has its record still
push_item-Tells :
    (names : String → Named) (c : Connection) (coordinator : Coordinator) (host : PushHost)
    (s : LocalStore) (env : Env) (lease : String) (now : ℕ) (i : LeasedOutboxItem)
    → IsBacked names env
    → IsNamed names i.push_request
    → let (result, s', env') = push_item coordinator host (worker_transport c) s env lease now i in
      IsBacked names env' × (is_acked result ≡ true → Records names env' i.push_request)
unfolding push_item send block
push_item-Tells names c coordinator host s env lease now i b n =
    elim (Bool-cases (str_eq i.push_request.trust_zone_id s.trust_zone_id)) [
      | inl e ↦ rw e (
          let (kept, told) = send_export-Tells names c env i.push_request _ b n in
          (kept, λ h. told (settled_acked coordinator host s i lease now _ h)))
      | inr e ↦ rw e (b, λ h. absurd (ground (arith, h)))
    ]

-- When `pushOne`, which uploads the protected value of a leased item to the worker and pushes the
-- item, reports it as delivered, the worker has the event or the erasure of the item in the table of
-- its zone, and remembers a request of the item's fingerprint under its key; and every request that it
-- remembers has its record still. Before, every request that the worker remembers must have the record
-- that its fingerprint is of, and the fingerprint of the item must be the one of its record.
pub push_item-Records :
    (names : String → Named) (c : Connection) (coordinator : Coordinator) (host : PushHost)
    (s : LocalStore) (env : Env) (lease : String) (now : ℕ) (i : LeasedOutboxItem)
    → IsBacked names env
    → IsNamed names i.push_request
    → is_acked (push_item coordinator host (worker_transport c) s env lease now i).0 ≡ true
    → IsBacked names (push_item coordinator host (worker_transport c) s env lease now i).2
      × Records names
          (push_item coordinator host (worker_transport c) s env lease now i).2
          i.push_request
push_item-Records names c coordinator host s env lease now i b n h =
    let (kept, told) = push_item-Tells names c coordinator host s env lease now i b n in
    (kept, told h)
