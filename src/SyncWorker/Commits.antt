-- ===== src/SyncWorker/Commits.antt =====
-- apps/carpeos-sync-worker/src/index.ts: `handlePush` and the zones. The abstract view of a zone is
-- the list of its records in order; a push appends to it what its answer accepts.
use mathlib.Core.List.{append-nil}
use carpe_os.Common.{
  ◌≡◌, refl, sym, String, Bool, true, false, ◌||◌, Option, none, some, List, [], ◌∷◌, ◌++◌, eq_refl,
  if◌then◌else◌, arith, Option-cases, inl, inr, Fallible, ok, threw,
}
use carpe_os.Schema.{CanonicalEvent, ErasureLedgerRecord, SyncPushRequest, PushStatus, accepted}
use carpe_os.SyncWorker.Store.{
  AuthorizationRow, SyncRequestRow, Env, Body, push_result, Response, get_sync_request,
}
use carpe_os.SyncWorker.Receipts.{
  get_protected_value_ref, first, validate_single_record_push, validate_protected_receipt,
  authorize, authorize_token,
}
use carpe_os.SyncWorker.Push.{
  Host, given_sequence, accepted_result, request_row, is_some, has_request, accept_record, refused,
  request_of, settle, replay_or_conflict, commit_push, ref_of, push_checked, push_new, push_single,
  push_authorized, push_valid, handle_push,
}
use carpe_os.SyncWorker.Pull.{PullRow, zone_log}
use carpe_os.SyncWorker.Sequences.{IsSequenced}
use carpe_os.SyncWorker.Batches.{
  Grows, added_rows, Grows-KeepsLog, place_event-Grows, place_erasure-Grows, accept_event-placed,
  accept_erasure-placed,
}

abbrev is_accepted_status : PushStatus → Bool
is_accepted_status accepted = true
is_accepted_status _ = false

abbrev is_accepted_body : Body → Bool
is_accepted_body (push_result r) = is_accepted_status r.status
is_accepted_body _ = false

-- the answer says that the record was accepted now
abbrev pub is_accepted : Response → Bool
is_accepted r = is_accepted_body r.body

-- what an answer to a push promises for a zone
abbrev pub promised_rows : Env → SyncPushRequest → Response → String → List PullRow
promised_rows env request answer zone =
    if is_accepted answer
    then added_rows env request (first request.events) (first request.erasures) zone
    else []

pub get-append :
    (zone key : String) (rs : List SyncRequestRow) (r : SyncRequestRow)
    → is_some (get_sync_request zone key rs) ≡ false
    → r.trust_zone_id ≡ zone
    → r.idempotency_key ≡ key
    → get_sync_request zone key (rs ++ r ∷ []) ≡ some r
unfolding get_sync_request
get-append zone key [] r h p q = rw (p, q, eq_refl zone, eq_refl key)
get-append zone key (s ∷ rs) r h p q = ground (arith, get-append zone key rs r)

abbrev pub has_record : Option CanonicalEvent → Option ErasureLedgerRecord → Bool
has_record e x = is_some e || is_some x

-- what holds of a batch that has run
record IsPlaced (env env' : Env) (request : SyncPushRequest) (e : Option CanonicalEvent)
    (x : Option ErasureLedgerRecord) : Type 0 where
  fresh : has_request env request ≡ false
  result :
      (events : List String) × (erasures : List String) × (request_of env' request
        ≡ some (
            request_row request
              (accepted_result request events erasures (given_sequence env request.trust_zone_id))))
  grows : (zone : String) → Grows zone env env' (added_rows env request e x zone)
  kept : (r : SyncRequestRow) × (env'.requests ≡ env.requests ++ r ∷ [])

accept_record-IsPlaced :
    (env env' : Env) (request : SyncPushRequest) (e : Option CanonicalEvent)
    (x : Option ErasureLedgerRecord)
    → IsSequenced env
    → has_record e x ≡ true
    → accept_record env request e x ≡ ok env'
    → IsPlaced env env' request e x
unfolding accept_record
accept_record-IsPlaced env env' request (some e) x full some_record h =
    let p = accept_event-placed env env' request e (get_protected_value_ref e) h in
    record {
      fresh = p.0;
      result = (
        e.event_id ∷ [],
        [],
        rw (p.1.requests_kept) (
            get-append request.trust_zone_id request.idempotency_key env.requests _ (p.0) refl
              refl),
      );
      grows = λ zone.
          Grows-KeepsLog zone env _ env' _ (p.1) (place_event-Grows env request zone full e x);
      kept = (_, p.1.requests_kept);
    }
accept_record-IsPlaced env env' request none (some x) full some_record h =
    let p = accept_erasure-placed env env' request x h in
    record {
      fresh = p.0;
      result = (
        [],
        x.erasure_id ∷ [],
        rw (p.1.requests_kept) (
            get-append request.trust_zone_id request.idempotency_key env.requests _ (p.0) refl
              refl),
      );
      grows = λ zone.
          Grows-KeepsLog zone env _ env' _ (p.1) (place_erasure-Grows env request zone full x);
      kept = (_, p.1.requests_kept);
    }
accept_record-IsPlaced env env' request none none full some_record h = cc

refused-not_accepted :
    (o : Option SyncRequestRow) (request : SyncPushRequest)
    → is_accepted (refused o request) ≡ false
unfolding replay_or_conflict
refused-not_accepted none request = refl
refused-not_accepted (some row) request = ground arith

-- the key has been used in the zone
abbrev pub IsHeld : String → String → Env → Type 0
IsHeld zone key env = is_some (get_sync_request zone key env.requests) ≡ true

IsHeld-append :
    (zone key : String) (rs : List SyncRequestRow) (r : SyncRequestRow)
    → is_some (get_sync_request zone key rs) ≡ true
    → is_some (get_sync_request zone key (rs ++ r ∷ [])) ≡ true
unfolding get_sync_request
IsHeld-append zone key [] r h = cc
IsHeld-append zone key (s ∷ rs) r h = ground (arith, IsHeld-append zone key rs r)

-- a state and an answer: the promised rows, and no others, have been added to every zone
pub record Keeps (env : Env) (request : SyncPushRequest) (answer : Response × Env) : Type 0 where
  pub sequenced : IsSequenced (answer.1)
  pub appended :
      (zone : String)
      → zone_log zone (answer.1) ≡ zone_log zone env ++ promised_rows env request (answer.0) zone
  pub fresh : is_accepted (answer.0) ≡ true → has_request env request ≡ false
  pub held : is_accepted (answer.0) ≡ true → has_request (answer.1) request ≡ true
  pub kept : (zone key : String) → IsHeld zone key env → IsHeld zone key (answer.1)

Keeps-same :
    (env : Env) (request : SyncPushRequest) (answer : Response)
    → IsSequenced env
    → is_accepted answer ≡ false
    → Keeps env request (answer, env)
Keeps-same env request answer full h = record {
  sequenced = full;
  appended = λ zone. rw h (sym (append-nil (zone_log zone env)));
  fresh = λ k. cc;
  held = λ k. cc;
  kept = λ zone key k. k;
}

settle-Keeps :
    (env : Env) (request : SyncPushRequest)
    → IsSequenced env
    → has_record (first request.events) (first request.erasures) ≡ true
    → (r : Fallible Env)
    → accept_record env request (first request.events) (first request.erasures) ≡ r
    → Keeps env request (settle env request r)
settle-Keeps env request full h (threw m) e =
    Keeps-same env request _ full (refused-not_accepted (request_of env request) request)
settle-Keeps env request full h (ok env') e =
    let p =
      accept_record-IsPlaced env env' request (first request.events) (first request.erasures) full h
        e in
    rw (p.result.2) (record {
      sequenced = λ zone. (p.grows zone).0;
      appended = λ zone. (p.grows zone).1;
      fresh = λ _. p.fresh;
      held = λ _. rw (p.result.2) refl;
      kept = λ zone key k. rw (p.kept.1) (IsHeld-append zone key env.requests (p.kept.0) k);
    })

pub has_record_of_valid :
    (request : SyncPushRequest)
    → validate_single_record_push request ≡ none
    → has_record (first request.events) (first request.erasures) ≡ true
unfolding validate_single_record_push
has_record_of_valid request h = ground arith

-- From any state whose zones are numbered, `commit_push` of one record, whatever has been committed
-- since the request was checked, leaves them numbered, and adds to each what its answer promises.
pub commit_push-Keeps :
    (env : Env) (request : SyncPushRequest)
    → IsSequenced env
    → validate_single_record_push request ≡ none
    → Keeps env request (commit_push env request)
unfolding commit_push
commit_push-Keeps env request full h =
    settle-Keeps env request full (has_record_of_valid request h) _ refl

authorize-not_accepted :
    (sha256_hex : String → String) (header : Option String) (client zone : String)
    (rows : List AuthorizationRow) (r : Response)
    → authorize sha256_hex header client zone rows ≡ some r
    → is_accepted r ≡ false
unfolding authorize authorize_token
authorize-not_accepted sha256_hex none client zone rows r h = ground arith
authorize-not_accepted sha256_hex (some header) client zone rows r h = ground arith

module _ (env : Env) (request : SyncPushRequest) (full : IsSequenced env) where
  push_new-Keeps :
      (o : Option SyncRequestRow)
      → validate_single_record_push request ≡ none
      → Keeps env request (push_new env request o)
  unfolding push_new push_checked
  push_new-Keeps (some row) h =
      Keeps-same env request _ full (refused-not_accepted (some row) request)
  push_new-Keeps none h =
      elim (Option-cases (validate_protected_receipt env request (ref_of (first request.events)))) [
        | inl e ↦ rw e (commit_push-Keeps env request full h)
        | inr (item, e) ↦ rw e (Keeps-same env request _ full refl)
      ]

  push_authorized-Keeps :
      (o : Option Response)
      → ((r : Response) → o ≡ some r → is_accepted r ≡ false)
      → Keeps env request (push_authorized env request o)
  unfolding push_authorized push_single
  push_authorized-Keeps (some r) h = Keeps-same env request r full (h r refl)
  push_authorized-Keeps none h = elim (Option-cases (validate_single_record_push request)) [
    | inl e ↦ rw e (push_new-Keeps (request_of env request) e)
    | inr (item, e) ↦ rw e (Keeps-same env request _ full refl)
  ]

  push_valid-Keeps :
      (host : Host) (header o : Option String)
      → Keeps env request (push_valid host env header request o)
  unfolding push_valid
  push_valid-Keeps host header (some errors) = Keeps-same env request _ full refl
  push_valid-Keeps host header none = push_authorized-Keeps _ λ r.
      authorize-not_accepted (host.sha256_hex) header request.client_id request.trust_zone_id
        env.authorizations r

-- From any state whose zones are numbered, a push leaves them numbered: it appends to the list of
-- records of its own zone the record that its answer accepts, under the next number, or nothing
-- where the answer does not accept one; the other zones stay as they are.
pub handle_push_refines :
    (host : Host) (env : Env) (authorization : Option String) (request : SyncPushRequest)
    → IsSequenced env
    → Keeps env request (handle_push host env authorization (ok request))
unfolding handle_push
handle_push_refines host env authorization request full =
    push_valid-Keeps env request full host authorization (host.push_errors request)
