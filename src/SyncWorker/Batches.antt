-- ===== src/SyncWorker/Batches.antt =====
-- apps/carpeos-sync-worker/src/index.ts: what `acceptEvent` and `acceptErasure` add to the zones.
use mathlib.Core.List.{append-nil}
use carpe_os.Common.{
  ℕ, suc, ◌≡◌, refl, sym, subst, String, Bool, true, false, not, ◌||◌, Option, none, some, List, [],
  ◌∷◌, ◌++◌, str_eq, eq_iff, eq_refl, if◌then◌else◌, arith, Bool-cases, inl, inr, Fallible, ok,
  guard, ◌>>◌,
}
use carpe_os.Schema.{ProtectedValueRef, CanonicalEvent, ErasureLedgerRecord, SyncPushRequest}
use carpe_os.SyncWorker.Store.{Env, last_sequence, has_event, has_erasure, has_link}
use carpe_os.SyncWorker.Push.{
  given_sequence, event_row, erasure_row, place_event, place_erasure, link_value, has_request,
  has_event_sequence, has_erasure_sequence, accept_event, accept_erasure,
}
use carpe_os.SyncWorker.Pull.{
  PullRow, pulled_event, pulled_erasure, event_rows, erasure_rows, zone_log,
}
use carpe_os.SyncWorker.Order.{event_rows-append, erasure_rows-append}
use carpe_os.SyncWorker.Sequences.{
  IsFilledIn, IsSequenced, log-events, log-erasures, IsFilled-events, IsFilled-erasures, last-next,
}

-- the second state has the rows of the first and then `rows`, all of them numbered
abbrev pub Grows : String → Env → Env → List PullRow → Type 0
Grows zone env env' rows = IsFilledIn zone env' × (zone_log zone env' ≡ zone_log zone env ++ rows)

-- a record and its place
unfoldable pub record_rows :
    SyncPushRequest → Option CanonicalEvent → Option ErasureLedgerRecord → ℕ → List PullRow
record_rows request (some e) x n = pulled_event (event_row request e n) ∷ []
record_rows request none (some x) n = pulled_erasure (erasure_row request x n) ∷ []
record_rows request none none n = []

module _ (env : Env) (request : SyncPushRequest) where
  abbrev own : String
  own = request.trust_zone_id

  abbrev pub own_sequence : ℕ
  own_sequence = given_sequence env request.trust_zone_id

  given-next : own_sequence ≡ suc (last_sequence own env.counters)
  given-next = rw (last-next own own env.counters, eq_refl own)

  place_event-own :
      (e : CanonicalEvent)
      → IsFilledIn own env
      → Grows own env
          (place_event env request e own_sequence)
          (pulled_event (event_row request e own_sequence) ∷ [])
  unfolding zone_log
  place_event-own e full =
      rw
        (
          given-next,
          event_rows-append own env.events
              (event_row request e (suc (last_sequence own env.counters))),
          eq_refl own,
        )
        (
          IsFilled-events (last_sequence own env.counters) (event_rows own env.events)
              (erasure_rows own env.erasures) _ refl full,
          log-events (last_sequence own env.counters) (event_rows own env.events)
              (erasure_rows own env.erasures) _ refl full,
        )

  place_erasure-own :
      (x : ErasureLedgerRecord)
      → IsFilledIn own env
      → Grows own env
          (place_erasure env request x own_sequence)
          (pulled_erasure (erasure_row request x own_sequence) ∷ [])
  unfolding zone_log
  place_erasure-own x full =
      rw
        (
          given-next,
          erasure_rows-append own env.erasures
              (erasure_row request x (suc (last_sequence own env.counters))),
          eq_refl own,
        )
        (
          IsFilled-erasures (last_sequence own env.counters) (event_rows own env.events)
              (erasure_rows own env.erasures) _ refl full,
          log-erasures (last_sequence own env.counters) (event_rows own env.events)
              (erasure_rows own env.erasures) _ refl full,
        )

  module _ (zone : String) (other : str_eq request.trust_zone_id zone ≡ false) where
    place_event-other :
        (e : CanonicalEvent) (n : ℕ)
        → IsFilledIn zone env
        → Grows zone env (place_event env request e n) []
    unfolding zone_log
    place_event-other e n full =
        rw
          (
            last-next zone own env.counters,
            event_rows-append zone env.events (event_row request e n),
            other,
            append-nil (event_rows zone env.events),
          )
          (full, sym (append-nil _))

    place_erasure-other :
        (x : ErasureLedgerRecord) (n : ℕ)
        → IsFilledIn zone env
        → Grows zone env (place_erasure env request x n) []
    unfolding zone_log
    place_erasure-other x n full =
        rw
          (
            last-next zone own env.counters,
            erasure_rows-append zone env.erasures (erasure_row request x n),
            other,
            append-nil (erasure_rows zone env.erasures),
          )
          (full, sym (append-nil _))

-- the rows of an accepted record: one in its zone, none in the others
unfoldable pub added_rows :
    Env
    → SyncPushRequest
    → Option CanonicalEvent
    → Option ErasureLedgerRecord
    → String
    → List PullRow
added_rows env request e x zone =
    if str_eq request.trust_zone_id zone
    then record_rows request e x (given_sequence env request.trust_zone_id)
    else []

-- the same rows, counters and answers
pub record KeepsLog (env env' : Env) : Type 0 where
  pub events_kept : env'.events ≡ env.events
  pub erasures_kept : env'.erasures ≡ env.erasures
  pub counters_kept : env'.counters ≡ env.counters
  pub requests_kept : env'.requests ≡ env.requests

link_value-KeepsLog :
    (env env' : Env) (request : SyncPushRequest) (e : CanonicalEvent)
    (ref : Option ProtectedValueRef)
    → link_value env request e ref ≡ ok env'
    → KeepsLog env env'
unfolding link_value
link_value-KeepsLog env env' request e none h = ground arith
link_value-KeepsLog env env' request e (some r) h =
    elim (Bool-cases (has_link r.protected_value_id e.event_id env.links)) [
      | inl c ↦ cc (rw c at h)
      | inr c ↦ ground arith
    ]

guard-ok :
    {A : Type 0} (b : Bool) (m : String) (rest : Fallible A) {a : A}
    → (guard b m >> rest) ≡ ok a
    → (b ≡ true) × (rest ≡ ok a)
guard-ok true m rest h = (refl, h)
guard-ok false m rest h = cc

pub Grows-KeepsLog :
    (zone : String) (env env₁ env' : Env) (rows : List PullRow)
    → KeepsLog env₁ env'
    → Grows zone env env₁ rows
    → Grows zone env env' rows
unfolding zone_log
Grows-KeepsLog zone env env₁ env' rows k g = rw (k.events_kept, k.erasures_kept, k.counters_kept) g

module _ (env : Env) (request : SyncPushRequest) (zone : String) (full : IsSequenced env) where
  pub place_event-Grows :
      (e : CanonicalEvent) (x : Option ErasureLedgerRecord)
      → Grows zone env
          (place_event env request e (given_sequence env request.trust_zone_id))
          (added_rows env request (some e) x zone)
  unfolding added_rows record_rows
  place_event-Grows e x = elim (Bool-cases (str_eq request.trust_zone_id zone)) [
    | inl same ↦ rw same (
        subst
          (λ z.
            Grows z env (place_event env request e (own_sequence env request))
              (pulled_event (event_row request e (own_sequence env request)) ∷ []))
          ((eq_iff request.trust_zone_id zone).0 same)
          (place_event-own env request e (full request.trust_zone_id)))
    | inr other ↦
        rw other (place_event-other env request zone other e (own_sequence env request) (full zone))
  ]

  pub place_erasure-Grows :
      (x : ErasureLedgerRecord)
      → Grows zone env
          (place_erasure env request x (given_sequence env request.trust_zone_id))
          (added_rows env request none (some x) zone)
  unfolding added_rows record_rows
  place_erasure-Grows x = elim (Bool-cases (str_eq request.trust_zone_id zone)) [
    | inl same ↦ rw same (
        subst
          (λ z.
            Grows z env (place_erasure env request x (own_sequence env request))
              (pulled_erasure (erasure_row request x (own_sequence env request)) ∷ []))
          ((eq_iff request.trust_zone_id zone).0 same)
          (place_erasure-own env request x (full request.trust_zone_id)))
    | inr other ↦
        rw other
          (place_erasure-other env request zone other x (own_sequence env request) (full zone))
  ]

KeepsLog-ok : (env env' : Env) → ◌≡◌ {A = Fallible Env} (ok env) (ok env') → KeepsLog env env'
KeepsLog-ok env env' h = ground arith

pub accept_event-placed :
    (env env' : Env) (request : SyncPushRequest) (e : CanonicalEvent)
    (ref : Option ProtectedValueRef)
    → accept_event env request e ref ≡ ok env'
    → (has_request env request ≡ false)
      × KeepsLog (place_event env request e (given_sequence env request.trust_zone_id)) env'
unfolding accept_event
accept_event-placed env env' request e ref h =
    let p =
      guard-ok (not (has_request env request)) "UNIQUE constraint failed: sync_requests" _ h in
    let q =
      guard-ok
        (not (
          has_event request.trust_zone_id e.event_id env.events
          || has_event_sequence request.trust_zone_id (given_sequence env request.trust_zone_id)
              env.events))
        "UNIQUE constraint failed: canonical_events" _ (p.1) in
    (ground (arith, p.0), link_value-KeepsLog _ env' request e ref (q.1))

pub accept_erasure-placed :
    (env env' : Env) (request : SyncPushRequest) (x : ErasureLedgerRecord)
    → accept_erasure env request x ≡ ok env'
    → (has_request env request ≡ false)
      × KeepsLog (place_erasure env request x (given_sequence env request.trust_zone_id)) env'
unfolding accept_erasure
accept_erasure-placed env env' request x h =
    let p =
      guard-ok (not (has_request env request)) "UNIQUE constraint failed: sync_requests" _ h in
    let q =
      guard-ok
        (not (
          has_erasure request.trust_zone_id x.erasure_id env.erasures
          || has_erasure_sequence request.trust_zone_id (given_sequence env request.trust_zone_id)
              env.erasures))
        "UNIQUE constraint failed: erasure_ledger" _ (p.1) in
    (ground (arith, p.0), KeepsLog-ok _ env' (q.1))
