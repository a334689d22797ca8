-- ===== src/SyncClient/Held.antt =====
-- packages/sync-client/src/index.ts: what importing a page leaves in the store.
use carpe_os.Common.{
  ℕ, ◌+◌, ◌≡◌, refl, ◌∙◌, String, true, Option, none, some, List, [], ◌∷◌, str_eq, All, Fallible,
  ok, threw,
}
use carpe_os.Common.Table.{find}
use carpe_os.Schema.{CanonicalEvent, ErasureLedgerRecord, ProtectedValueRef}
use carpe_os.Schema.Texts.{erasure_json}
use carpe_os.SyncWorker.Pull.{
  PulledRecord, an_event, an_erasure, PullRow, push_event, push_erasure, events_of, erasures_of,
}
use carpe_os.LocalStore.Store.{InboxErasureRow, LocalStore, erasure_key, get_event}
use carpe_os.LocalStore.Inbox.{ImportStatus, Host}
use carpe_os.LocalStore.Values.{get_event_protected_value_ref}
use carpe_os.LocalStore.Replays.{texts_agree, Lands, import_pulled_event-Lands}
use carpe_os.LocalStore.Landing.{
  bind-ok, ErasureLands, import_pulled_protected_value-Lands, import_pulled_erasure-ErasureLands,
}
use carpe_os.SyncClient.Pull.{
  PullTransport, counted, after_import, import_with_ref, import_event, import_events,
  import_erasures,
}

-- the store has the event, as it was pulled or as it was captured here, apart from its number
abbrev pub HoldsEvent : LocalStore → CanonicalEvent → Type 0
HoldsEvent s e = (d : CanonicalEvent) × (get_event s e.event_id ≡ some d) × (texts_agree d e ≡ true)

abbrev pub HoldsErasure : LocalStore → ErasureLedgerRecord → Type 0
HoldsErasure s x =
    (r : InboxErasureRow) × (find erasure_key x.erasure_id s.inbox_erasures ≡ some r)
    × (str_eq (erasure_json r.erasure_json) (erasure_json x) ≡ true)

abbrev pub HoldsRecord : LocalStore → PulledRecord → Type 0
HoldsRecord s (an_event e) = HoldsEvent s e
HoldsRecord s (an_erasure x) = HoldsErasure s x

abbrev pub HoldsRow : LocalStore → PullRow → Type 0
HoldsRow s r = HoldsRecord s r.payload_json

-- the second store has all that the first has, and the same cursor
pub record Extends (s s' : LocalStore) : Type 0 where
  pub events_kept :
      (id : String) (d : CanonicalEvent) → get_event s id ≡ some d → get_event s' id ≡ some d
  pub erasures_kept :
      (id : String) (r : InboxErasureRow)
      → find erasure_key id s.inbox_erasures ≡ some r
      → find erasure_key id s'.inbox_erasures ≡ some r
  pub zone_kept : s'.trust_zone_id ≡ s.trust_zone_id
  pub cursors_kept : s'.cursors ≡ s.cursors

pub Extends-refl : (s : LocalStore) → Extends s s
Extends-refl s = record {
  events_kept = λ id d h. h;
  erasures_kept = λ id r h. h;
  zone_kept = refl;
  cursors_kept = refl;
}

pub Extends-trans : {s t u : LocalStore} → Extends s t → Extends t u → Extends s u
Extends-trans h k = record {
  events_kept = λ id d p. k.events_kept id d (h.events_kept id d p);
  erasures_kept = λ id r p. k.erasures_kept id r (h.erasures_kept id r p);
  zone_kept = k.zone_kept ∙ h.zone_kept;
  cursors_kept = k.cursors_kept ∙ h.cursors_kept;
}

Lands-Extends : {s s' : LocalStore} {e : CanonicalEvent} → Lands s e s' → Extends s s'
Lands-Extends l = record {
  events_kept = l.kept;
  erasures_kept = λ id r h. rw (l.erasures_kept) h;
  zone_kept = l.zone_kept;
  cursors_kept = l.cursors_kept;
}

ErasureLands-Extends :
    {s s' : LocalStore} {x : ErasureLedgerRecord} → ErasureLands s x s' → Extends s s'
ErasureLands-Extends l = record {
  events_kept = λ id d h. l.events_kept id ∙ h;
  erasures_kept = l.kept;
  zone_kept = l.zone_kept;
  cursors_kept = l.cursors_kept;
}

HoldsEvent-Extends :
    {s s' : LocalStore} (e : CanonicalEvent) → Extends s s' → HoldsEvent s e → HoldsEvent s' e
HoldsEvent-Extends e x (d, p, q) = (d, x.events_kept e.event_id d p, q)

pub HoldsErasure-Extends :
    {s s' : LocalStore} (x : ErasureLedgerRecord)
    → Extends s s'
    → HoldsErasure s x
    → HoldsErasure s' x
HoldsErasure-Extends x k (r, p, q) = (r, k.erasures_kept x.erasure_id r p, q)

HoldsRecord-Extends :
    {s s' : LocalStore} (p : PulledRecord) → Extends s s' → HoldsRecord s p → HoldsRecord s' p
HoldsRecord-Extends (an_event e) k h = HoldsEvent-Extends e k h
HoldsRecord-Extends (an_erasure x) k h = HoldsErasure-Extends x k h

pub All-Extends :
    {s s' : LocalStore} (rs : List PullRow)
    → Extends s s'
    → All (HoldsRow s) rs
    → All (HoldsRow s') rs
All-Extends [] k h = tt
All-Extends (r ∷ rs) k (p, h) = (HoldsRecord-Extends r.payload_json k p, All-Extends rs k h)

pub All-HoldsEvent :
    {s s' : LocalStore} (es : List CanonicalEvent)
    → Extends s s'
    → All (HoldsEvent s) es
    → All (HoldsEvent s') es
All-HoldsEvent [] k h = tt
All-HoldsEvent (e ∷ es) k (p, h) = (HoldsEvent-Extends e k p, All-HoldsEvent es k h)

row_held :
    (s : LocalStore) (p : PulledRecord) (es : List CanonicalEvent) (xs : List ErasureLedgerRecord)
    → All (HoldsEvent s) (push_event p es)
    → All (HoldsErasure s) (push_erasure p xs)
    → HoldsRecord s p × All (HoldsEvent s) es × All (HoldsErasure s) xs
row_held s (an_event e) es xs (h, hs) k = (h, hs, k)
row_held s (an_erasure x) es xs h (k, ks) = (k, h, ks)

-- a page is held when its events and its erasures are
pub rows_held :
    (s : LocalStore) (rs : List PullRow)
    → All (HoldsEvent s) (events_of rs)
    → All (HoldsErasure s) (erasures_of rs)
    → All (HoldsRow s) rs
unfolding events_of erasures_of
rows_held s [] h k = tt
rows_held s (r ∷ rs) h k =
    let p = row_held s r.payload_json (events_of rs) (erasures_of rs) h k in
    (p.0, rows_held s rs (p.1) (p.2))

module _ (host : Host) (transport : PullTransport) where
  import_with_ref-Lands :
      (s s' : LocalStore) (e : CanonicalEvent) (st : ImportStatus) (o : Option ProtectedValueRef)
      → import_with_ref host transport s e o ≡ ok (st, s')
      → Lands s e s'
  unfolding import_with_ref
  import_with_ref-Lands s s' e st none h = import_pulled_event-Lands host s s' e st h
  import_with_ref-Lands s s' e st (some r) h =
      let p =
        bind-ok
          (transport.get_protected_value r.protected_value_id e.trust_zone_id
            r.encrypted_blob.digest.value)
          _ h in
      import_pulled_protected_value-Lands host s s' _ st (p.2)

  import_event-Lands :
      (s s' : LocalStore) (e : CanonicalEvent) (st : ImportStatus)
      → import_event host transport s e ≡ ok (st, s')
      → Lands s e s'
  unfolding import_event
  import_event-Lands s s' e st h =
      import_with_ref-Lands s s' e st (get_event_protected_value_ref e) h

  -- what is left of a store after the imports of a list, and what is there if none of them threw
  abbrev pub Imports :
      {A : Type 0} (P : LocalStore → A → Type 0)
      → LocalStore
      → List A
      → Fallible ℕ × LocalStore
      → Type 0
  Imports P s xs answer = Extends s (answer.1) × ((n : ℕ) → answer.0 ≡ ok n → All (P (answer.1)) xs)

  after_import-Imports :
      {A : Type 0} (P : LocalStore → A → Type 0)
      → ((t u : LocalStore) (a : A) → Extends t u → P t a → P u a)
      → (s : LocalStore) (x : A) (xs : List A) (n : ℕ)
        (rest : LocalStore → ℕ → Fallible ℕ × LocalStore) (r : Fallible (ImportStatus × LocalStore))
      → ((st : ImportStatus) (s' : LocalStore) → r ≡ ok (st, s') → Extends s s' × P s' x)
      → ((s' : LocalStore) (m : ℕ) → Imports P s' xs (rest s' m))
      → Imports P s (x ∷ xs) (after_import s n rest r)
  after_import-Imports P mono s x xs n rest (threw m) now ih = (Extends-refl s, λ k q. cc)
  after_import-Imports P mono s x xs n rest (ok (st, s')) now ih =
      let l = now st s' refl in
      let later = ih s' (n + counted st) in
      (Extends-trans (l.0) (later.0), λ k q. (mono s' _ x (later.0) (l.1), later.1 k q))

  pub import_events-Imports :
      (s : LocalStore) (es : List CanonicalEvent) (n : ℕ)
      → Imports HoldsEvent s es (import_events host transport s es n)
  unfolding import_events
  import_events-Imports s [] n = (Extends-refl s, λ k q. tt)
  import_events-Imports s (e ∷ es) n =
      after_import-Imports HoldsEvent (λ t u a. HoldsEvent-Extends a) s e es n _ _
        (λ st s' h.
          let l = import_event-Lands s s' e st h in (Lands-Extends l, (l.event, l.there, l.agrees)))
        (λ s' m. import_events-Imports s' es m)

  pub import_erasures-Imports :
      (s : LocalStore) (xs : List ErasureLedgerRecord) (n : ℕ)
      → Imports HoldsErasure s xs (import_erasures host transport s xs n)
  unfolding import_erasures
  import_erasures-Imports s [] n = (Extends-refl s, λ k q. tt)
  import_erasures-Imports s (x ∷ xs) n =
      after_import-Imports HoldsErasure (λ t u a. HoldsErasure-Extends a) s x xs n _ _
        (λ st s' h.
          let l = import_pulled_erasure-ErasureLands host s s' x st h in
          (ErasureLands-Extends l, (l.row, l.there, l.agrees)))
        (λ s' m. import_erasures-Imports s' xs m)
