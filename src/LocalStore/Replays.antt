-- ===== src/LocalStore/Replays.antt =====
-- packages/local-store/src/store.ts: importing again what has been imported, and what an import leaves
-- of the events that were there.
use carpe_os.Common.{
  ℕ, ◌≡◌, refl, subst, ◌↔◌, String, Bool, true, false, Option, none, some, str_eq, eq_refl, arith,
  Option-cases, inl, inr, Fallible, ok, threw, guard, ◌>>◌,
}
use carpe_os.Common.Table.{find, find-append, find-append_some}
use carpe_os.Schema.{CanonicalEvent}
use carpe_os.Schema.Texts.{event_json}
use carpe_os.LocalStore.Store.{InboxEventRow, LocalStore, inbox_key, get_event}
use carpe_os.LocalStore.Inbox.{
  ImportStatus, imported, replayed, Host, assert_valid, assert_local_trust_zone,
  strip_zone_sequence, assert_compatible_by, assert_pull_replay_compatible, inbox_row, insert_inbox,
  import_found, import_pulled_event,
}

texts_agree_by : Option ℕ → CanonicalEvent → CanonicalEvent → Bool
texts_agree_by none d e =
    str_eq (event_json (strip_zone_sequence d)) (event_json (strip_zone_sequence e))
texts_agree_by (some n) d e = str_eq (event_json d) (event_json e)

-- the JSON texts of two events agree, without the numbers where the first has none
unfoldable pub texts_agree : CanonicalEvent → CanonicalEvent → Bool
unfolding texts_agree_by
texts_agree d e = texts_agree_by d.zone_sequence d e

guard-ok_iff : (b : Bool) (m : String) → (guard b m ≡ ok tt) ↔ (b ≡ true)
guard-ok_iff true m = (λ h. refl, λ h. refl)
guard-ok_iff false m = (λ h. cc, λ h. cc)

compatible_by_lem :
    (o : Option ℕ) (d e : CanonicalEvent)
    → (assert_compatible_by o d e ≡ ok tt) ↔ (texts_agree_by o d e ≡ true)
unfolding assert_compatible_by texts_agree_by
compatible_by_lem none d e = guard-ok_iff _ _
compatible_by_lem (some n) d e = guard-ok_iff _ _

pub compatible_lem :
    (d e : CanonicalEvent) → (assert_pull_replay_compatible d e ≡ ok tt) ↔ (texts_agree d e ≡ true)
unfolding assert_pull_replay_compatible texts_agree
compatible_lem d e = compatible_by_lem d.zone_sequence d e

texts_agree_by_refl : (o : Option ℕ) (e : CanonicalEvent) → texts_agree_by o e e ≡ true
unfolding texts_agree_by
texts_agree_by_refl none e = eq_refl (event_json (strip_zone_sequence e))
texts_agree_by_refl (some n) e = eq_refl (event_json e)

pub texts_agree_refl : (e : CanonicalEvent) → texts_agree e e ≡ true
unfolding texts_agree
texts_agree_refl e = texts_agree_by_refl e.zone_sequence e

module _ (s : LocalStore) (r : InboxEventRow) where
  get_event-insert_self :
      get_event s r.event_id ≡ none → get_event (insert_inbox s r) r.event_id ≡ some r.event_json
  unfolding get_event
  get_event-insert_self h =
      ground (arith, find-append inbox_key r.event_id s.inbox_events r, eq_refl r.event_id)

  get_event-insert_some :
      (id : String) {d : CanonicalEvent}
      → get_event s id ≡ some d
      → get_event (insert_inbox s r) id ≡ some d
  unfolding get_event
  get_event-insert_some id {d} h = elim (Option-cases (find inbox_key id s.inbox_events)) [
    | inl e ↦ ground arith
    | inr (q, e) ↦ ground (arith, find-append_some inbox_key id s.inbox_events r {r = q})
  ]

-- after an import: the event is there, under the texts it came with; every event that was there is
-- as it was; and nothing else that a pull reads has changed
pub record Lands (s : LocalStore) (e : CanonicalEvent) (s' : LocalStore) : Type 0 where
  pub event : CanonicalEvent
  pub there : get_event s' e.event_id ≡ some event
  pub agrees : texts_agree event e ≡ true
  pub kept : (id : String) (d : CanonicalEvent) → get_event s id ≡ some d → get_event s' id ≡ some d
  pub zone_kept : s'.trust_zone_id ≡ s.trust_zone_id
  pub cursors_kept : s'.cursors ≡ s.cursors
  pub erasures_kept : s'.inbox_erasures ≡ s.inbox_erasures

pub then-ok :
    {A : Type 0} (m : Fallible (Unit {0})) (rest : Fallible A) {a : A}
    → (m >> rest) ≡ ok a
    → (m ≡ ok tt) × (rest ≡ ok a)
then-ok (ok u) rest h = (refl, h)
then-ok (threw m) rest h = cc

Lands-replayed :
    (s : LocalStore) (e d : CanonicalEvent)
    → get_event s e.event_id ≡ some d
    → assert_pull_replay_compatible d e ≡ ok tt
    → Lands s e s
Lands-replayed s e d h k = record {
  event = d;
  there = h;
  agrees = (compatible_lem d e).0 k;
  kept = λ id f g. g;
  zone_kept = refl;
  cursors_kept = refl;
  erasures_kept = refl;
}

import_found-Lands :
    (s s' : LocalStore) (e : CanonicalEvent) (st : ImportStatus) (o : Option CanonicalEvent)
    → get_event s e.event_id ≡ o
    → import_found s e o ≡ ok (st, s')
    → Lands s e s'
unfolding import_found
import_found-Lands s s' e st (some d) h k =
    let p = then-ok (assert_pull_replay_compatible d e) _ k in
    let same : s ≡ s' = ground (arith, p.1) in subst (Lands s e) same (Lands-replayed s e d h (p.0))
import_found-Lands s s' e st none h k =
    let same : insert_inbox s (inbox_row e "") ≡ s' = ground arith in
    subst (Lands s e) same (record {
      event = e;
      there = get_event-insert_self s (inbox_row e "") h;
      agrees = texts_agree_refl e;
      kept = λ id d g. get_event-insert_some s (inbox_row e "") id g;
      zone_kept = refl;
      cursors_kept = refl;
      erasures_kept = refl;
    })

-- After `importPulledEvent` has returned, the store has the event, as it came or as it was captured
-- here, apart from its number; the events that were there are as they were; the cursor and the
-- erasures are untouched.
pub import_pulled_event-Lands :
    (host : Host) (s s' : LocalStore) (e : CanonicalEvent) (st : ImportStatus)
    → import_pulled_event host s e ≡ ok (st, s')
    → Lands s e s'
unfolding import_pulled_event
import_pulled_event-Lands host s s' e st h =
    let p = then-ok (assert_valid "canonical event" (host.event_errors e)) _ h in
    let q = then-ok (assert_local_trust_zone s e.trust_zone_id e.event_id) _ (p.1) in
    import_found-Lands s s' e st (get_event s e.event_id) refl (q.1)

import_pulled_event-replayed :
    (host : Host) (s s' : LocalStore) (e : CanonicalEvent) (st : ImportStatus)
    → import_pulled_event host s e ≡ ok (st, s')
    → import_pulled_event host s' e ≡ ok (replayed, s')
unfolding import_pulled_event import_found get_event
import_pulled_event-replayed host s s' e st h =
    let l = import_pulled_event-Lands host s s' e st h in
    let p = then-ok (assert_valid "canonical event" (host.event_errors e)) _ h in
    let q = then-ok (assert_local_trust_zone s e.trust_zone_id e.event_id) _ (p.1) in
    rw (p.0, l.zone_kept, q.0, l.there, (compatible_lem (l.event) e).1 (l.agrees)) refl

import_found-read :
    (s s' : LocalStore) (e : CanonicalEvent) (o : Option CanonicalEvent)
    → get_event s e.event_id ≡ o
    → import_found s e o ≡ ok (imported, s')
    → get_event s' e.event_id ≡ some e
unfolding import_found
import_found-read s s' e (some d) h k =
    let p = then-ok (assert_pull_replay_compatible d e) _ k in ground (arith, p.1)
import_found-read s s' e none h k =
    let same : insert_inbox s (inbox_row e "") ≡ s' = ground arith in
    subst (λ t. get_event t e.event_id ≡ some e) same (get_event-insert_self s (inbox_row e "") h)

-- An event that `importPulledEvent` has reported as imported is read back as it came, and importing
-- it again is a replay that changes nothing.
pub import_pulled_event-again :
    (host : Host) (s s' : LocalStore) (e : CanonicalEvent)
    → import_pulled_event host s e ≡ ok (imported, s')
    → (get_event s' e.event_id ≡ some e) × (import_pulled_event host s' e ≡ ok (replayed, s'))
unfolding import_pulled_event
import_pulled_event-again host s s' e h =
    let p = then-ok (assert_valid "canonical event" (host.event_errors e)) _ h in
    let q = then-ok (assert_local_trust_zone s e.trust_zone_id e.event_id) _ (p.1) in
    (
      import_found-read s s' e (get_event s e.event_id) refl (q.1),
      import_pulled_event-replayed host s s' e imported h,
    )
