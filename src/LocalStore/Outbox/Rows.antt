-- ===== src/LocalStore/Outbox/Rows.antt =====
-- packages/local-store/src/store.ts: the rows of the outbox under an identifier, and the statements
-- that leave them alone.
use carpe_os.Common.{
  ℕ, zero, suc, ◌-◌, ◌≡◌, ◌≢◌, refl, ◌∙◌, String, Bool, true, false, ◌&&◌, ◌==◌, List, [], ◌∷◌, leb,
  ltb, length, min, arith, Bool-cases, Option-cases, inl, inr, All, All-take, keep, if◌then◌else◌,
}
use carpe_os.Common.Table.{find}
use carpe_os.LocalStore.Store.{EventRow, OutboxRow, event_key}
use carpe_os.LocalStore.Outbox.{
  JoinedRow, join_events, is_due, delete_row, update_row, LeaseState, lease_of, LeaseCall, scan_cap,
  skips, scan_row, scan_batch, head_rows, all_leased, after_batch, scan, may_finish, finish_row,
}

-- the rows under an identifier
abbrev pub rows_of : ℕ → List OutboxRow → List OutboxRow
rows_of k rows = keep (λ o. o.outbox_id == k) rows

-- `f` keeps the identifier of a row
abbrev pub KeepsKey : (OutboxRow → OutboxRow) → Type 0
KeepsKey f = (o : OutboxRow) → (f o).outbox_id ≡ o.outbox_id

-- what holds of the rows of a list that is put together by a test
split_kept :
    (P : OutboxRow → Type 0) (b : Bool) (o : OutboxRow) (os : List OutboxRow)
    → All P (if b then o ∷ os else os)
    → (b ≡ true → P o) × All P os
split_kept P true o os (p, h) = (λ e. p, h)
split_kept P false o os h = (λ e. absurd (ground (arith, e)), h)

module _ (k : ℕ) where
  update-rows :
      (id : ℕ) (f : OutboxRow → OutboxRow) (rows : List OutboxRow)
      → KeepsKey f
      → id ≢ k
      → rows_of k (update_row id f rows) ≡ rows_of k rows
  unfolding update_row
  update-rows id f [] h n = refl
  update-rows id f (o ∷ os) h n = elim (Bool-cases (o.outbox_id == id)) [
    | inl e ↦ ground (arith, h o, update-rows id f os h n)
    | inr e ↦ ground (arith, update-rows id f os h n)
  ]

  delete-rows :
      (id : ℕ) (rows : List OutboxRow) → id ≢ k → rows_of k (delete_row id rows) ≡ rows_of k rows
  unfolding delete_row
  delete-rows id [] n = refl
  delete-rows id (o ∷ os) n = ground (arith, delete-rows id os n)

  pub finish-rows :
      (id : ℕ) (lease : String) (f : OutboxRow → OutboxRow) (rows : List OutboxRow)
      → KeepsKey f
      → All (λ o. may_finish id lease o ≡ false) (rows_of k rows)
      → rows_of k (finish_row id lease f rows) ≡ rows_of k rows
  unfolding finish_row
  finish-rows id lease f [] h a = refl
  finish-rows id lease f (o ∷ os) h a =
      let (p, rest) = split_kept _ (o.outbox_id == k) o (rows_of k os) a in
      let ih = finish-rows id lease f os h rest in
      elim (Bool-cases (o.outbox_id == k)) [
        | inl e ↦ rw (p e, e, ih) refl
        | inr e ↦ ground (arith, h o, ih)
      ]

  -- every row under the identifier is not due
  abbrev pub IsIdle : ℕ → List OutboxRow → Type 0
  IsIdle now rows = All (λ o. is_due now o ≡ false) (rows_of k rows)

  due-other :
      (now : ℕ) (rows : List OutboxRow)
      → IsIdle now rows
      → All (λ o. o.outbox_id ≢ k) (keep (is_due now) rows)
  due-other now [] h = tt
  due-other now (o ∷ os) h =
      let (p, rest) = split_kept _ (o.outbox_id == k) o (rows_of k os) h in
      let ih = due-other now os rest in
      elim (Bool-cases (is_due now o)) [
        | inl e ↦ rw e ((λ q. absurd (ground (arith, p, q, e))), ih)
        | inr e ↦ rw e ih
      ]

  -- a joined row of another identifier
  abbrev IsOther : JoinedRow → Type 0
  IsOther j = j.outbox.outbox_id ≢ k

  join-IsOther :
      (events : List EventRow) (rows : List OutboxRow)
      → All (λ o. o.outbox_id ≢ k) rows
      → All IsOther (join_events events rows)
  unfolding join_events
  join-IsOther events [] h = tt
  join-IsOther events (o ∷ os) (n, h) = elim (Option-cases (find event_key o.event_id events)) [
    | inl e ↦ rw e (join-IsOther events os h)
    | inr (ev, e) ↦ rw e (n, join-IsOther events os h)
  ]

  module _ (c : LeaseCall) where
    row-rows :
        (j : JoinedRow) (st : LeaseState)
        → IsOther j
        → rows_of k (scan_row c j st).outbox ≡ rows_of k (st.outbox)
    row-rows j st n = elim (Bool-cases (skips c j.event)) [
      | inl e ↦ rw e (delete-rows j.outbox.outbox_id (st.outbox) n)
      | inr e ↦ rw e (
          update-rows j.outbox.outbox_id (lease_of c.lease_id c.leased_until) (st.outbox)
            (λ o. refl) n)
    ]

    batch-rows :
        (js : List JoinedRow) (st : LeaseState)
        → All IsOther js
        → rows_of k (scan_batch c js st).outbox ≡ rows_of k (st.outbox)
    unfolding scan_batch
    batch-rows [] st h = refl
    batch-rows (j ∷ js) st (n, h) = elim (Bool-cases (leb c.limit (length st.leased_ids))) [
      | inl e ↦ rw (e, scan_batch) refl
      | inr e ↦ rw (e, scan_batch) (batch-rows js (scan_row c j st) h ∙ row-rows j st n)
    ]

    head-IsOther : (st : LeaseState) → IsIdle c.now (st.outbox) → All IsOther (head_rows c st)
    unfolding head_rows
    head-IsOther st h =
        All-take IsOther (min 32 (scan_cap c - st.scanned)) _
          (join-IsOther (c.events) (keep (is_due c.now) st.outbox) (due-other c.now (st.outbox) h))

    after-rows :
        (js : List JoinedRow) (st : LeaseState) (again : LeaseState → LeaseState)
        → All IsOther js
        → ((t : LeaseState)
            → rows_of k (t.outbox) ≡ rows_of k (st.outbox)
            → rows_of k (again t).outbox ≡ rows_of k (st.outbox))
        → rows_of k (after_batch c js st again).outbox ≡ rows_of k (st.outbox)
    after-rows [] st again h ih = refl
    after-rows (j ∷ js) st again h ih =
        let t = batch-rows (j ∷ js) st h in
        elim (Bool-cases (all_leased (scan_batch c (j ∷ js) st).leased_ids (j ∷ js))) [
          | inl e ↦ rw (e, after_batch) t
          | inr e ↦ rw (e, after_batch) (ih _ t)
        ]

    pub scan-rows :
        (fuel : ℕ) (st : LeaseState)
        → IsIdle c.now (st.outbox)
        → rows_of k (scan c fuel st).outbox ≡ rows_of k (st.outbox)
    unfolding scan
    scan-rows zero st h = refl
    scan-rows (suc fuel) st h =
        elim (Bool-cases (ltb (length st.leased_ids) c.limit && ltb st.scanned (scan_cap c))) [
          | inr e ↦ rw (e, scan) refl
          | inl e ↦
              rw (e, scan)
                (after-rows (head_rows c st) st (λ t. scan c fuel t) (head-IsOther st h)
                  (λ t q. scan-rows fuel t (rw q h) ∙ q))
        ]
