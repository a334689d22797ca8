-- ===== src/LocalStore/Landing.antt =====
-- packages/local-store/src/store.ts: what importing a protected value and an erasure leaves.
use carpe_os.Common.{
  ◌≡◌, refl, subst, ◌∙◌, String, Bool, true, false, not, Option, none, some, List, [], ◌∷◌, ◌++◌,
  str_eq, eq_iff, eq_refl, arith, Bool-cases, inl, inr, Fallible, ok, threw, guard, ◌>>◌, ◌>>=◌,
  ltb,
}
use carpe_os.Common.Table.{find, find-append, find-append_some}
use carpe_os.Schema.{CanonicalEvent, ErasureLedgerRecord, ProtectedValueRef}
use carpe_os.Schema.Texts.{erasure_json}
use carpe_os.LocalStore.Store.{
  EventRow, InboxEventRow, LocalStore, SealedValue, event_key, inbox_key, erasure_key,
  InboxErasureRow, inbox_json, event_or_inbox, get_event, has_idempotency_key,
}
use carpe_os.LocalStore.Inbox.{
  ImportStatus, Host, assert_valid, assert_local_trust_zone, assert_pull_replay_compatible,
  inbox_row, erasure_row, erasure_found, import_pulled_erasure,
}
use carpe_os.LocalStore.Values.{
  ProtectedValueImportInput, insert_value, value_found, assert_transfer, assert_metadata_zone,
  import_checked, import_pulled_protected_value, put_inbox, canonical_row,
  record_protected_value_import,
}
use carpe_os.LocalStore.Replays.{texts_agree_refl, compatible_lem, Lands, then-ok}

pub bind-ok :
    {A B : Type 0} (m : Fallible A) (f : A → Fallible B) {b : B}
    → (m >>= f) ≡ ok b
    → (a : A) × (m ≡ ok a) × (f a ≡ ok b)
bind-ok (ok a) f h = (a, refl, h)
bind-ok (threw m) f h = cc

module _ (rows : List EventRow) (inbox : List InboxEventRow) (r : EventRow)
    (q : InboxEventRow) where
  grown_self :
      event_or_inbox (find event_key r.event_id rows) (find inbox_key r.event_id inbox) ≡ none
      → event_or_inbox
          (find event_key r.event_id (rows ++ r ∷ []))
          (find inbox_key r.event_id (put_inbox (find inbox_key q.event_id inbox) q inbox))
        ≡ some r.event_json
  grown_self h = ground (arith, find-append event_key r.event_id rows r, eq_refl r.event_id)

  find-put_inbox :
      (id : String) (o : Option InboxEventRow) {x : InboxEventRow}
      → find inbox_key id inbox ≡ some x
      → find inbox_key id (put_inbox o q inbox) ≡ some x
  unfolding put_inbox
  find-put_inbox id (some old) h = h
  find-put_inbox id none h = find-append_some inbox_key id inbox q h

  grown-inbox :
      (id : String) {d : CanonicalEvent}
      → event_or_inbox (find event_key r.event_id rows) (find inbox_key r.event_id inbox) ≡ none
      → find event_key id rows ≡ none
      → (o : Option InboxEventRow) → find inbox_key id inbox ≡ o
      → inbox_json o ≡ some d
      → event_or_inbox
          (find event_key id (rows ++ r ∷ []))
          (find inbox_key id (put_inbox (find inbox_key q.event_id inbox) q inbox))
        ≡ some d
  grown-inbox id new absent none e h = cc
  grown-inbox id {d} new absent (some x) e h = elim (Bool-cases (str_eq r.event_id id)) [
    | inl t ↦
        let p : event_or_inbox (find event_key id rows) (find inbox_key id inbox) ≡ none =
          subst (λ k. event_or_inbox (find event_key k rows) (find inbox_key k inbox) ≡ none)
            ((eq_iff r.event_id id).0 t) new in
        cc (rw (absent, e) at p)
    | inr t ↦
        let gone : find event_key id (rows ++ r ∷ []) ≡ none =
          find-append event_key id rows r absent ∙ rw t refl in
        rw (gone, find-put_inbox id (find inbox_key q.event_id inbox) e) h
  ]

  grown-some :
      (id : String) {d : CanonicalEvent}
      → event_or_inbox (find event_key r.event_id rows) (find inbox_key r.event_id inbox) ≡ none
      → (o : Option EventRow) → find event_key id rows ≡ o
      → event_or_inbox o (find inbox_key id inbox) ≡ some d
      → event_or_inbox
          (find event_key id (rows ++ r ∷ []))
          (find inbox_key id (put_inbox (find inbox_key q.event_id inbox) q inbox))
        ≡ some d
  grown-some id new none e h = grown-inbox id new e _ refl h
  grown-some id new (some x) e h = rw (find-append_some event_key id rows r e) h

ok-second :
    (a : ImportStatus × LocalStore) {st : ImportStatus} {s' : LocalStore}
    → ok a ≡ ok (st, s')
    → a.1 ≡ s'
ok-second (t, s) h = ground arith

insert_value-Lands :
    (s s' : LocalStore) (i : ProtectedValueImportInput) (r : ProtectedValueRef) (digest : String)
    (v : SealedValue) (st : ImportStatus)
    → get_event s i.event.event_id ≡ none
    → insert_value s i r digest v ≡ ok (st, s')
    → Lands s i.event s'
unfolding insert_value get_event record_protected_value_import
insert_value-Lands s s' i r digest v st h k =
    let p = then-ok (guard (ltb 0 v.size_bytes) "CHECK constraint failed: size_bytes > 0") _ k in
    let q =
      then-ok
        (guard
          (not
            (has_idempotency_key i.event.trust_zone_id i.event.idempotency_key s.canonical_events))
          "UNIQUE constraint failed: canonical_events")
        _ (p.1) in
    let same = ok-second _ (q.1) in
    subst (Lands s i.event) same (record {
      event = i.event;
      there =
          grown_self s.canonical_events s.inbox_events
            (canonical_row s i.event i.metadata.protected_value_id)
            (inbox_row i.event i.metadata.protected_value_id) h;
      agrees = texts_agree_refl (i.event);
      kept = λ id d g.
          grown-some s.canonical_events s.inbox_events
            (canonical_row s i.event i.metadata.protected_value_id)
            (inbox_row i.event i.metadata.protected_value_id) id h _ refl g;
      zone_kept = refl;
      cursors_kept = refl;
      erasures_kept = refl;
    })

value_found-Lands :
    (s s' : LocalStore) (i : ProtectedValueImportInput) (r : ProtectedValueRef) (digest : String)
    (v : SealedValue) (st : ImportStatus) (o : Option CanonicalEvent)
    → get_event s i.event.event_id ≡ o
    → value_found s i r digest v o ≡ ok (st, s')
    → Lands s i.event s'
unfolding value_found get_event record_protected_value_import
value_found-Lands s s' i r digest v st none h k = insert_value-Lands s s' i r digest v st h k
value_found-Lands s s' i r digest v st (some d) h k =
    let p = then-ok (assert_pull_replay_compatible d i.event) _ k in
    let same = ok-second _ (p.1) in
    subst (Lands s i.event) same (record {
      event = d;
      there = h;
      agrees = (compatible_lem d (i.event)).0 (p.0);
      kept = λ id f g. g;
      zone_kept = refl;
      cursors_kept = refl;
      erasures_kept = refl;
    })

import_checked-Lands :
    (host : Host) (s s' : LocalStore) (i : ProtectedValueImportInput) (st : ImportStatus)
    (o : Option ProtectedValueRef)
    → import_checked host s i o ≡ ok (st, s')
    → Lands s i.event s'
unfolding import_checked
import_checked-Lands host s s' i st none h = cc
import_checked-Lands host s s' i st (some r) h =
    let a = then-ok (assert_transfer host i r) _ h in
    let f = bind-ok (host.reseal i.metadata i.ciphertext) _ (a.1) in
    value_found-Lands s s' i r (host.hash_hex i.ciphertext) (f.0) st _ refl (f.2)

-- After `importPulledProtectedValue` has returned, the store has the event, as it came or as it was
-- captured here, apart from its number; the events that were there are as they were; the cursor and
-- the erasures are untouched.
pub import_pulled_protected_value-Lands :
    (host : Host) (s s' : LocalStore) (i : ProtectedValueImportInput) (st : ImportStatus)
    → import_pulled_protected_value host s i ≡ ok (st, s')
    → Lands s i.event s'
unfolding import_pulled_protected_value
import_pulled_protected_value-Lands host s s' i st h =
    let a = then-ok (assert_valid "canonical event" (host.event_errors i.event)) _ h in
    let b =
      then-ok (assert_valid "protected value metadata" (host.metadata_errors i.metadata)) _ (a.1) in
    let c = then-ok (assert_local_trust_zone s i.event.trust_zone_id i.event.event_id) _ (b.1) in
    let d = then-ok (assert_metadata_zone i) _ (c.1) in import_checked-Lands host s s' i st _ (d.1)

-- after the import of an erasure: it is there under its text, with all that was there
pub record ErasureLands (s : LocalStore) (x : ErasureLedgerRecord) (s' : LocalStore) : Type 0 where
  pub row : InboxErasureRow
  pub there : find erasure_key x.erasure_id s'.inbox_erasures ≡ some row
  pub agrees : str_eq (erasure_json row.erasure_json) (erasure_json x) ≡ true
  pub kept :
      (id : String) (r : InboxErasureRow)
      → find erasure_key id s.inbox_erasures ≡ some r
      → find erasure_key id s'.inbox_erasures ≡ some r
  pub events_kept : (id : String) → get_event s' id ≡ get_event s id
  pub zone_kept : s'.trust_zone_id ≡ s.trust_zone_id
  pub cursors_kept : s'.cursors ≡ s.cursors

guard-true :
    {A : Type 0} (b : Bool) (m : String) (rest : Fallible A) {a : A}
    → (guard b m >> rest) ≡ ok a
    → (b ≡ true) × (rest ≡ ok a)
guard-true true m rest h = (refl, h)
guard-true false m rest h = cc

erasure_found-ErasureLands :
    (s s' : LocalStore) (x : ErasureLedgerRecord) (st : ImportStatus) (o : Option InboxErasureRow)
    → find erasure_key x.erasure_id s.inbox_erasures ≡ o
    → erasure_found s x o ≡ ok (st, s')
    → ErasureLands s x s'
unfolding erasure_found get_event
erasure_found-ErasureLands s s' x st (some r) h k =
    let p = guard-true (str_eq (erasure_json r.erasure_json) (erasure_json x)) _ _ k in
    let same = ok-second _ (p.1) in
    subst (ErasureLands s x) same (record {
      row = r;
      there = h;
      agrees = p.0;
      kept = λ id q g. g;
      events_kept = λ id. refl;
      zone_kept = refl;
      cursors_kept = refl;
    })
erasure_found-ErasureLands s s' x st none h k =
    let same = ok-second _ k in
    subst (ErasureLands s x) same (record {
      row = erasure_row x;
      there =
          find-append erasure_key x.erasure_id s.inbox_erasures (erasure_row x) h
          ∙ rw (eq_refl x.erasure_id) refl;
      agrees = eq_refl (erasure_json x);
      kept = λ id q g. find-append_some erasure_key id s.inbox_erasures (erasure_row x) g;
      events_kept = λ id. refl;
      zone_kept = refl;
      cursors_kept = refl;
    })

-- After `importPulledErasure` has returned, the store has the erasure, under the JSON text it came
-- with; the erasures that were there are as they were; the events and the cursor are untouched.
pub import_pulled_erasure-ErasureLands :
    (host : Host) (s s' : LocalStore) (x : ErasureLedgerRecord) (st : ImportStatus)
    → import_pulled_erasure host s x ≡ ok (st, s')
    → ErasureLands s x s'
unfolding import_pulled_erasure
import_pulled_erasure-ErasureLands host s s' x st h =
    let a = then-ok (assert_valid "erasure ledger record" (host.erasure_errors x)) _ h in
    let b = then-ok (assert_local_trust_zone s x.trust_zone_id x.erasure_id) _ (a.1) in
    erasure_found-ErasureLands s s' x st _ refl (b.1)
