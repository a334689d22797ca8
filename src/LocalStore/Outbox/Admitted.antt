-- ===== src/LocalStore/Outbox/Admitted.antt =====
-- packages/local-store/src/store.ts: `leaseOutbox` leases only what the rules of admission let through.
use carpe_os.Common.{
  ℕ, zero, suc, ◌-◌, ◌<◌, ◌≡◌, refl, String, Bool, true, false, ◌&&◌, ◌==◌, some, List, [], ◌∷◌,
  leb, ltb, length, min, arith, Bool-cases, Option-cases, inl, inr, All, All-take, keep, ok,
}
use carpe_os.Common.Table.{find}
use carpe_os.Capture.SyncAdmission.{SyncAdmissionPolicyId}
use carpe_os.LocalStore.Store.{EventRow, OutboxRow, LocalStore, event_key}
use carpe_os.LocalStore.Outbox.{
  LeasedOutboxItem, LeaseResult, JoinedRow, join_events, is_due, deletes, delete_row, update_row,
  LeaseState, lease_of, LeaseCall, scan_cap, skips, scan_row, scan_batch, head_rows, all_leased,
  after_batch, scan, holds_lease, items_of, lease_call, scan_outbox, lease_result, lease_outbox,
}

-- rows under the identifier of `o` are for its event
abbrev pub Names : OutboxRow → List OutboxRow → Type 0
Names o rows = All (λ r. r.outbox_id ≡ o.outbox_id → r.event_id ≡ o.event_id) rows

-- PRIMARY KEY: an identifier is for one event
abbrev pub IsKeyed : List OutboxRow → Type 0
IsKeyed rows = All (λ o. Names o rows) rows

-- a row that holds the lease of the call is for an event that the rules admit
abbrev pub IsAdmitted : LeaseCall → OutboxRow → Type 0
IsAdmitted c r =
    holds_lease c.lease_id r ≡ true
    → (e : EventRow) → find event_key r.event_id c.events ≡ some e
    → skips c e ≡ false

module _ (P : OutboxRow → Type 0) where
  All-delete_row : (id : ℕ) (rows : List OutboxRow) → All P rows → All P (delete_row id rows)
  unfolding delete_row
  All-delete_row id [] h = tt
  All-delete_row id (r ∷ rs) (p, h) = elim (Bool-cases (deletes id r)) [
    | inl e ↦ rw e (All-delete_row id rs h)
    | inr e ↦ rw e (p, All-delete_row id rs h)
  ]

  All-update_row :
      (id : ℕ) (f : OutboxRow → OutboxRow) (rows : List OutboxRow)
      → All P rows
      → All (λ r. r.outbox_id ≡ id → P (f r)) rows
      → All P (update_row id f rows)
  unfolding update_row
  All-update_row id f [] h k = tt
  All-update_row id f (r ∷ rs) (p, h) (q, k) = elim (Bool-cases (r.outbox_id == id)) [
    | inl e ↦ rw e (q (ground arith), All-update_row id f rs h k)
    | inr e ↦ rw e (p, All-update_row id f rs h k)
  ]

  All-keep : (p : OutboxRow → Bool) (rows : List OutboxRow) → All P rows → All P (keep p rows)
  All-keep p [] h = tt
  All-keep p (r ∷ rs) (q, h) = elim (Bool-cases (p r)) [
    | inl e ↦ rw e (q, All-keep p rs h)
    | inr e ↦ rw e (All-keep p rs h)
  ]

  pub All-map :
      {Q : OutboxRow → Type 0} (rows : List OutboxRow)
      → ((r : OutboxRow) → P r → Q r)
      → All P rows
      → All Q rows
  All-map [] f h = tt
  All-map (r ∷ rs) f (p, h) = (f r p, All-map rs f h)

-- a joined row: its event, and its identifier among the rows
abbrev IsJoined : LeaseCall → List OutboxRow → JoinedRow → Type 0
IsJoined c rows j =
    (find event_key j.outbox.event_id c.events ≡ some j.event) × Names (j.outbox) rows

record IsSound (c : LeaseCall) (rows : List OutboxRow) : Type 0 where
  keyed : IsKeyed rows
  admitted : All (IsAdmitted c) rows

module _ (c : LeaseCall) (rows : List OutboxRow) (j : JoinedRow) where
  abbrev leased_rows : List OutboxRow
  leased_rows = update_row j.outbox.outbox_id (lease_of c.lease_id c.leased_until) rows

  Names-update : (o : OutboxRow) → Names o rows → Names o leased_rows
  Names-update o h = All-update_row _ j.outbox.outbox_id _ rows h (All-map _ rows (λ r p _. p) h)

  Names-delete : (o : OutboxRow) → Names o rows → Names o (delete_row j.outbox.outbox_id rows)
  Names-delete o h = All-delete_row _ j.outbox.outbox_id rows h

  IsSound-delete : IsSound c rows → IsSound c (delete_row j.outbox.outbox_id rows)
  IsSound-delete s = record {
    keyed =
        All-delete_row _ j.outbox.outbox_id rows (All-map _ rows (λ o p. Names-delete o p) s.keyed);
    admitted = All-delete_row _ j.outbox.outbox_id rows (s.admitted);
  }

  IsSound-update :
      skips c j.event ≡ false → IsJoined c rows j → IsSound c rows → IsSound c leased_rows
  IsSound-update k (found, names) s =
      let all = All-map _ rows (λ o p. Names-update o p) s.keyed in
      record {
        keyed = All-update_row _ j.outbox.outbox_id _ rows all (All-map _ rows (λ r p _. p) all);
        admitted =
            All-update_row (IsAdmitted c) j.outbox.outbox_id _ rows (s.admitted)
              (All-map _ rows (λ r p q. λ _ e g. admitted_event r e (p q) g) names);
      }
    where
      admitted_event :
          (r : OutboxRow) (e : EventRow)
          → r.event_id ≡ j.outbox.event_id
          → find event_key r.event_id c.events ≡ some e
          → skips c e ≡ false
      admitted_event r e p g = cc

  scan_row-IsSound :
      IsJoined c rows j
      → (st : LeaseState) → st.outbox ≡ rows
      → IsSound c rows
      → IsSound c (scan_row c j st).outbox
  scan_row-IsSound joined st e s = elim (Bool-cases (skips c j.event)) [
    | inl k ↦ rw (k, e) (IsSound-delete s)
    | inr k ↦ rw (k, e) (IsSound-update k joined s)
  ]

  scan_row-Names :
      (o : OutboxRow) (st : LeaseState)
      → st.outbox ≡ rows
      → Names o rows
      → Names o (scan_row c j st).outbox
  scan_row-Names o st e h = elim (Bool-cases (skips c j.event)) [
    | inl k ↦ rw (k, e) (Names-delete o h)
    | inr k ↦ rw (k, e) (Names-update o h)
  ]

module _ (c : LeaseCall) where
  IsJoined-scan_row :
      (j : JoinedRow) (st : LeaseState) (js : List JoinedRow)
      → All (IsJoined c (st.outbox)) js
      → All (IsJoined c (scan_row c j st).outbox) js
  IsJoined-scan_row j st [] h = tt
  IsJoined-scan_row j st (i ∷ is) ((f, n), h) =
      ((f, scan_row-Names c (st.outbox) j (i.outbox) st refl n), IsJoined-scan_row j st is h)

  scan_batch-IsSound :
      (js : List JoinedRow) (st : LeaseState)
      → All (IsJoined c (st.outbox)) js
      → IsSound c (st.outbox)
      → IsSound c (scan_batch c js st).outbox
  unfolding scan_batch
  scan_batch-IsSound [] st h s = s
  scan_batch-IsSound (j ∷ js) st (p, h) s = elim (Bool-cases (leb c.limit (length st.leased_ids))) [
    | inl e ↦ rw (e, scan_batch) s
    | inr e ↦
        rw (e, scan_batch)
          (scan_batch-IsSound js (scan_row c j st) (IsJoined-scan_row j st js h)
            (scan_row-IsSound c (st.outbox) j p st refl s))
  ]

  join-IsJoined :
      (rows all : List OutboxRow)
      → All (λ o. Names o all) rows
      → All (IsJoined c all) (join_events c.events rows)
  unfolding join_events
  join-IsJoined [] all h = tt
  join-IsJoined (o ∷ os) all (n, h) = elim (Option-cases (find event_key o.event_id c.events)) [
    | inl e ↦ rw e (join-IsJoined os all h)
    | inr (ev, e) ↦ rw e ((e, n), join-IsJoined os all h)
  ]

  head_rows-IsJoined :
      (st : LeaseState) → IsSound c (st.outbox) → All (IsJoined c (st.outbox)) (head_rows c st)
  unfolding head_rows
  head_rows-IsJoined st s = All-take (IsJoined c (st.outbox)) (min 32 (scan_cap c - st.scanned)) _ (
      join-IsJoined (keep (is_due c.now) st.outbox) (st.outbox)
        (All-keep (λ o. Names o (st.outbox)) (is_due c.now) (st.outbox) (s.keyed)))

  after_batch-IsSound :
      (js : List JoinedRow) (st : LeaseState) (again : LeaseState → LeaseState)
      → All (IsJoined c (st.outbox)) js
      → IsSound c (st.outbox)
      → ((t : LeaseState) → IsSound c (t.outbox) → IsSound c (again t).outbox)
      → IsSound c (after_batch c js st again).outbox
  after_batch-IsSound [] st again h s ih = s
  after_batch-IsSound (j ∷ js) st again h s ih =
      let t = scan_batch-IsSound (j ∷ js) st h s in
      elim (Bool-cases (all_leased (scan_batch c (j ∷ js) st).leased_ids (j ∷ js))) [
        | inl e ↦ rw (e, after_batch) t
        | inr e ↦ rw (e, after_batch) (ih _ t)
      ]

  scan-IsSound :
      (fuel : ℕ) (st : LeaseState) → IsSound c (st.outbox) → IsSound c (scan c fuel st).outbox
  unfolding scan
  scan-IsSound zero st s = s
  scan-IsSound (suc fuel) st s =
      elim (Bool-cases (ltb (length st.leased_ids) c.limit && ltb st.scanned (scan_cap c))) [
        | inr e ↦ rw (e, scan) s
        | inl e ↦
            rw (e, scan)
              (after_batch-IsSound (head_rows c st) st (λ t. scan c fuel t)
                (head_rows-IsJoined st s) s (scan-IsSound fuel))
      ]

  -- an item of a lease is of an event that the rules admit
  abbrev pub IsAdmittedItem : LeasedOutboxItem → Type 0
  IsAdmittedItem i =
      (e : EventRow) × (find event_key i.event_id c.events ≡ some e) × (skips c e ≡ false)

  items-IsAdmitted :
      (rows : List OutboxRow)
      → All (IsAdmitted c) rows
      → All IsAdmittedItem (items_of (join_events c.events (keep (holds_lease c.lease_id) rows)))
  unfolding items_of join_events
  items-IsAdmitted [] h = tt
  items-IsAdmitted (o ∷ os) (p, h) = elim (Bool-cases (holds_lease c.lease_id o)) [
    | inr e ↦ rw e (items-IsAdmitted os h)
    | inl e ↦ elim (Option-cases (find event_key o.event_id c.events)) [
      | inl f ↦ rw (e, f) (items-IsAdmitted os h)
      | inr (ev, f) ↦ rw (e, f) ((ev, f, p e ev f), items-IsAdmitted os h)
    ]
  ]

-- In a store whose outbox gives one identifier to one event, where no row yet holds the new lease,
-- `leaseOutbox` with a positive limit and duration returns, and every item that it leases is of an
-- event of the store that the rules of admission let through under the policy.
pub lease_outbox-admitted :
    (s : LocalStore) (limit lease_ms now : ℕ) (policy : SyncAdmissionPolicyId) (lease : String)
    → 0 < limit
    → 0 < lease_ms
    → IsKeyed s.outbox
    → All (λ r. holds_lease lease r ≡ false) s.outbox
    → (result : LeaseResult) × (s' : LocalStore) × (lease_outbox s limit lease_ms now policy lease
        ≡ ok (result, s'))
      × All (IsAdmittedItem (lease_call s limit lease_ms now policy lease)) result.items
unfolding lease_outbox scan_outbox
lease_outbox-admitted s limit lease_ms now policy lease p q keyed fresh =
    let c = lease_call s limit lease_ms now policy lease in
    let start : LeaseState = record {
      outbox = s.outbox;
      leased_ids = [];
      skipped = 0;
      scanned = 0;
    } in
    let st = scan c (scan_cap c) start in
    let a : leb 1 limit ≡ true = ground arith in
    let b : leb 1 lease_ms ≡ true = ground arith in
    let sound : IsSound c s.outbox = record {
      keyed = keyed;
      admitted = All-map (λ r. holds_lease lease r ≡ false) s.outbox (λ r f. λ t. cc) fresh;
    } in
    (
      lease_result c st,
      record s { outbox = st.outbox },
      rw (a, b) refl,
      items-IsAdmitted c (st.outbox) (scan-IsSound c (scan_cap c) start sound).admitted,
    )
