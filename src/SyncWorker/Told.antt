-- ===== src/SyncWorker/Told.antt =====
-- apps/carpeos-sync-worker/src/index.ts: an answer that tells of an accepted or a replayed record, and
-- the record in the tables.
use carpe_os.Common.{
  ◌≡◌, refl, sym, ap, ◌∙◌, subst, String, Bool, true, false, ◌&&◌, Option, none, some, List, [],
  ◌∷◌, ◌++◌, arith, Fallible, ok, threw, str_eq, eq_iff, eq_refl, Bool-cases, Option-cases, inl,
  inr, All, All-append,
}
use carpe_os.Schema.{
  SyncPushRequest, PushStatus, accepted, replay, invalid_schema, CanonicalEvent,
  ErasureLedgerRecord,
}
use carpe_os.SyncWorker.Store.{
  AuthorizationRow, SyncRequestRow, EventRow, ErasureRow, Env, Body, push_result, Response,
  get_sync_request, has_event, has_erasure, json_error,
}
use carpe_os.SyncWorker.Receipts.{
  authorize, authorize_token, first, sync_error_item, validate_single_record_push,
  validate_protected_receipt, get_protected_value_ref,
}
use carpe_os.SyncWorker.Push.{
  Host, refused, request_of, settle, commit_push, ref_of, push_checked, push_new, push_single,
  push_authorized, push_valid, handle_push, accept_record, replay_or_conflict, given_sequence,
  event_row, erasure_row,
}
use carpe_os.SyncWorker.Batches.{accept_event-placed, accept_erasure-placed}
use carpe_os.SyncWorker.Commits.{get-append}

abbrev pub tells : PushStatus → Bool
tells accepted = true
tells replay = true
tells _ = false

abbrev pub body_tells : Body → Bool
body_tells (push_result r) = tells r.status
body_tells _ = false

-- what a push can bring: an event, or an erasure, by its identifier
pub data Named : Type 0 where
  an_event : (event_id : String) → Named
  an_erasure : (erasure_id : String) → Named

abbrev pub record_of : Option CanonicalEvent → Option ErasureLedgerRecord → Option Named
record_of (some e) x = some (an_event e.event_id)
record_of none (some x) = some (an_erasure x.erasure_id)
record_of none none = none

-- the record is in the tables of a zone
abbrev pub InTables : (zone : String) → List EventRow → List ErasureRow → Named → Type 0
InTables zone events erasures (an_event id) = has_event zone id events ≡ true
InTables zone events erasures (an_erasure id) = has_erasure zone id erasures ≡ true

has_event-append :
    (zone id : String) (rs : List EventRow) (r : EventRow)
    → has_event zone id rs ≡ true
    → has_event zone id (rs ++ r ∷ []) ≡ true
unfolding has_event
has_event-append zone id [] r h = cc
has_event-append zone id (q ∷ rs) r h = ground (arith, has_event-append zone id rs r)

has_erasure-append :
    (zone id : String) (rs : List ErasureRow) (r : ErasureRow)
    → has_erasure zone id rs ≡ true
    → has_erasure zone id (rs ++ r ∷ []) ≡ true
unfolding has_erasure
has_erasure-append zone id [] r h = cc
has_erasure-append zone id (q ∷ rs) r h = ground (arith, has_erasure-append zone id rs r)

has_event-own :
    (rs : List EventRow) (r : EventRow) → has_event r.trust_zone_id r.event_id (rs ++ r ∷ []) ≡ true
unfolding has_event
has_event-own [] r = rw (eq_refl r.trust_zone_id, eq_refl r.event_id) refl
has_event-own (q ∷ rs) r = ground (arith, has_event-own rs r)

has_erasure-own :
    (rs : List ErasureRow) (r : ErasureRow)
    → has_erasure r.trust_zone_id r.erasure_id (rs ++ r ∷ []) ≡ true
unfolding has_erasure
has_erasure-own [] r = rw (eq_refl r.trust_zone_id, eq_refl r.erasure_id) refl
has_erasure-own (q ∷ rs) r = ground (arith, has_erasure-own rs r)

InTables-event :
    (zone : String) (events : List EventRow) (erasures : List ErasureRow) (r : EventRow) (n : Named)
    → InTables zone events erasures n
    → InTables zone (events ++ r ∷ []) erasures n
InTables-event zone events erasures r (an_event id) h = has_event-append zone id events r h
InTables-event zone events erasures r (an_erasure id) h = h

InTables-erasure :
    (zone : String) (events : List EventRow) (erasures : List ErasureRow) (r : ErasureRow)
    (n : Named)
    → InTables zone events erasures n
    → InTables zone events (erasures ++ r ∷ []) n
InTables-erasure zone events erasures r (an_event id) h = h
InTables-erasure zone events erasures r (an_erasure id) h = has_erasure-append zone id erasures r h

found_zone :
    (zone key : String) (rows : List SyncRequestRow) (row : SyncRequestRow)
    → get_sync_request zone key rows ≡ some row
    → row.trust_zone_id ≡ zone
unfolding get_sync_request
found_zone zone key [] row e = absurd (ground (arith, e))
found_zone zone key (r ∷ rows) row e =
    elim (Bool-cases (str_eq r.trust_zone_id zone && str_eq r.idempotency_key key)) [
      | inl k ↦
          let same : r ≡ row = ground (arith, k, e) in
          ap (λ (q : SyncRequestRow). q.trust_zone_id) (sym same)
          ∙ (eq_iff r.trust_zone_id zone).0 (ground (arith, k))
      | inr k ↦ found_zone zone key rows row (ground (arith, k, e))
    ]

-- a row that is found is one of the rows
found_All :
    (P : SyncRequestRow → Type 0) (zone key : String) (rows : List SyncRequestRow)
    (row : SyncRequestRow)
    → All P rows
    → get_sync_request zone key rows ≡ some row
    → P row
unfolding get_sync_request
found_All P zone key [] row h e = absurd (ground (arith, e))
found_All P zone key (r ∷ rows) row (p, h) e =
    elim (Bool-cases (str_eq r.trust_zone_id zone && str_eq r.idempotency_key key)) [
      | inl k ↦ subst P (ground (arith, k, e)) p
      | inr k ↦ found_All P zone key rows row h (ground (arith, k, e))
    ]

authorize_tells_not :
    (sha256_hex : String → String) (header : Option String) (client zone : String)
    (rows : List AuthorizationRow) (r : Response)
    → authorize sha256_hex header client zone rows ≡ some r
    → body_tells r.body ≡ false
unfolding authorize authorize_token
authorize_tells_not sha256_hex none client zone rows r h = ground arith
authorize_tells_not sha256_hex (some header) client zone rows r h = ground arith

-- which record a fingerprint is of
module _ (names : String → Named) where
  abbrev pub Stands : List EventRow → List ErasureRow → SyncRequestRow → Type 0
  Stands events erasures row =
      InTables row.trust_zone_id events erasures (names row.request_fingerprint)

  -- every request that the worker remembers has the record of its fingerprint
  abbrev pub IsBacked : Env → Type 0
  IsBacked env = All (Stands env.events env.erasures) env.requests

  -- the fingerprint of a push is the one of its record
  abbrev pub IsNamed : SyncPushRequest → Type 0
  IsNamed request =
      record_of (first request.events) (first request.erasures)
      ≡ some (names request.request_fingerprint)

  -- a request with the key of a push in its zone, of the same fingerprint, and the record of it
  abbrev pub Records : Env → SyncPushRequest → Type 0
  Records env request =
      (row : SyncRequestRow) × (request_of env request ≡ some row)
      × (row.request_fingerprint ≡ request.request_fingerprint)
      × InTables request.trust_zone_id env.events env.erasures (names request.request_fingerprint)

  -- what an answer tells of is recorded, and nothing that was is lost
  abbrev pub Tells : SyncPushRequest → Response × Env → Type 0
  Tells request answer =
      IsBacked (answer.1) × (body_tells (answer.0).body ≡ true → Records (answer.1) request)

  -- new records leave the old ones
  Stands-event :
      (events : List EventRow) (erasures : List ErasureRow) (r : EventRow)
      (rows : List SyncRequestRow)
      → All (Stands events erasures) rows
      → All (Stands (events ++ r ∷ []) erasures) rows
  Stands-event events erasures r [] h = tt
  Stands-event events erasures r (row ∷ rows) (k, h) = (
    InTables-event row.trust_zone_id events erasures r (names row.request_fingerprint) k,
    Stands-event events erasures r rows h,
  )

  Stands-erasure :
      (events : List EventRow) (erasures : List ErasureRow) (r : ErasureRow)
      (rows : List SyncRequestRow)
      → All (Stands events erasures) rows
      → All (Stands events (erasures ++ r ∷ [])) rows
  Stands-erasure events erasures r [] h = tt
  Stands-erasure events erasures r (row ∷ rows) (k, h) = (
    InTables-erasure row.trust_zone_id events erasures r (names row.request_fingerprint) k,
    Stands-erasure events erasures r rows h,
  )

  -- a row of the fingerprint, under the key, stands for the record of the request
  row-Records :
      (env : Env) (request : SyncPushRequest) (row : SyncRequestRow)
      → IsBacked env
      → request_of env request ≡ some row
      → row.request_fingerprint ≡ request.request_fingerprint
      → Records env request
  row-Records env request row backed e f =
      let zone = request.trust_zone_id in
      let stands =
        found_All (Stands env.events env.erasures) zone request.idempotency_key env.requests row
          backed e in
      let z = found_zone zone request.idempotency_key env.requests row e in
      (
        row,
        e,
        f,
        subst (λ p. InTables zone env.events env.erasures (names p)) f
            (subst (λ q. InTables q env.events env.erasures (names row.request_fingerprint)) z
              stands),
      )

  -- an earlier request answers with a replay only to its own fingerprint
  known-Tells :
      (env : Env) (request : SyncPushRequest) (row : SyncRequestRow)
      → IsBacked env
      → request_of env request ≡ some row
      → Tells request (replay_or_conflict row request, env)
  unfolding replay_or_conflict
  known-Tells env request row backed e = (
    backed,
    λ h.
        row-Records env request row backed e
          (ground (arith, eq_iff row.request_fingerprint request.request_fingerprint, h)),
  )

  refused-Tells :
      (env : Env) (request : SyncPushRequest) (o : Option SyncRequestRow)
      → IsBacked env
      → request_of env request ≡ o
      → Tells request (refused o request, env)
  refused-Tells env request none backed e = (backed, λ h. absurd (ground (arith, h)))
  refused-Tells env request (some row) backed e = known-Tells env request row backed e

  -- a batch that has run: the row of the request, under its key, and its record
  module _ (env env' : Env) (request : SyncPushRequest) (backed : IsBacked env) where
    placed_event :
        (e : CanonicalEvent)
        → an_event e.event_id ≡ names request.request_fingerprint
        → accept_record env request (some e) (first request.erasures) ≡ ok env'
        → IsBacked env' × Records env' request
    unfolding accept_record
    placed_event e n h =
        let (fresh, k) = accept_event-placed env env' request e (get_protected_value_ref e) h in
        let r = event_row request e (given_sequence env request.trust_zone_id) in
        let own =
          subst (InTables request.trust_zone_id (env.events ++ r ∷ []) env.erasures) n
            (has_event-own env.events r) in
        rw (k.requests_kept, k.events_kept, k.erasures_kept)
          (
            All-append _ env.requests _ (Stands-event env.events env.erasures r env.requests backed)
                (own, tt),
            (
              _,
              get-append request.trust_zone_id request.idempotency_key env.requests _ fresh refl
                  refl,
              refl,
              own,
            ),
          )

    placed_erasure :
        (x : ErasureLedgerRecord)
        → an_erasure x.erasure_id ≡ names request.request_fingerprint
        → accept_record env request none (some x) ≡ ok env'
        → IsBacked env' × Records env' request
    unfolding accept_record
    placed_erasure x n h =
        let (fresh, k) = accept_erasure-placed env env' request x h in
        let r = erasure_row request x (given_sequence env request.trust_zone_id) in
        let own =
          subst (InTables request.trust_zone_id env.events (env.erasures ++ r ∷ [])) n
            (has_erasure-own env.erasures r) in
        rw (k.requests_kept, k.events_kept, k.erasures_kept)
          (
            All-append _ env.requests _
                (Stands-erasure env.events env.erasures r env.requests backed) (own, tt),
            (
              _,
              get-append request.trust_zone_id request.idempotency_key env.requests _ fresh refl
                  refl,
              refl,
              own,
            ),
          )

  placed-Records :
      (env env' : Env) (request : SyncPushRequest) (e : Option CanonicalEvent)
      (x : Option ErasureLedgerRecord)
      → IsBacked env
      → x ≡ first request.erasures
      → record_of e x ≡ some (names request.request_fingerprint)
      → accept_record env request e x ≡ ok env'
      → IsBacked env' × Records env' request
  placed-Records env env' request (some e) x backed q n h =
      placed_event env env' request backed e (ground (arith, n)) (rw⁻¹ q h)
  placed-Records env env' request none (some x) backed q n h =
      placed_erasure env env' request backed x (ground (arith, n)) h
  placed-Records env env' request none none backed q n h = absurd (ground (arith, n))

  settle-Tells :
      (env : Env) (request : SyncPushRequest) (r : Fallible Env)
      → IsBacked env
      → IsNamed request
      → accept_record env request (first request.events) (first request.erasures) ≡ r
      → Tells request (settle env request r)
  settle-Tells env request (threw m) backed n e = refused-Tells env request _ backed refl
  settle-Tells env request (ok env') backed n e =
      let (b, recorded) = placed-Records env env' request _ _ backed refl n e in (b, λ _. recorded)

  module _ (env : Env) (request : SyncPushRequest) (backed : IsBacked env)
      (named : IsNamed request) where
    same-Tells : (r : Response) → body_tells r.body ≡ false → Tells request (r, env)
    same-Tells r n = (backed, λ h. absurd (cc))

    -- From any state in which every remembered request has its record, `commit_push` leaves such a
    -- state, and what its answer tells of is recorded.
    pub commit_push-Tells : Tells request (commit_push env request)
    unfolding commit_push
    commit_push-Tells = settle-Tells env request _ backed named refl

    new-Tells :
        (o : Option SyncRequestRow)
        → request_of env request ≡ o
        → Tells request (push_new env request o)
    unfolding push_new push_checked
    new-Tells (some row) e = known-Tells env request row backed e
    new-Tells none e =
        elim (Option-cases
          (validate_protected_receipt env request (ref_of (first request.events)))) [
            | inl k ↦ rw k commit_push-Tells
            | inr (item, k) ↦ rw k (same-Tells (sync_error_item item) refl)
          ]

    authorized-Tells :
        (o : Option Response)
        → ((r : Response) → o ≡ some r → body_tells r.body ≡ false)
        → Tells request (push_authorized env request o)
    unfolding push_authorized push_single
    authorized-Tells (some r) k = same-Tells r (k r refl)
    authorized-Tells none k = elim (Option-cases (validate_single_record_push request)) [
      | inl v ↦ rw v (new-Tells (request_of env request) refl)
      | inr (item, v) ↦ rw v (same-Tells (sync_error_item item) refl)
    ]

    valid-Tells :
        (host : Host) (header o : Option String)
        → Tells request (push_valid host env header request o)
    unfolding push_valid
    valid-Tells host header (some errors) =
        same-Tells (json_error 400 invalid_schema errors none) refl
    valid-Tells host header none = authorized-Tells _ λ r.
        authorize_tells_not (host.sha256_hex) header request.client_id request.trust_zone_id
          env.authorizations r

  -- From any state in which every remembered request has its record, a push leaves such a state; and
  -- when its answer says accepted or replay, the worker remembers a request of the same fingerprint
  -- under the key of the push, and has the record of the push.
  pub handle_push-Tells :
      (host : Host) (env : Env) (authorization : Option String) (request : SyncPushRequest)
      → IsBacked env
      → IsNamed request
      → Tells request (handle_push host env authorization (ok request))
  unfolding handle_push
  handle_push-Tells host env authorization request backed named =
      valid-Tells env request backed named host authorization (host.push_errors request)
