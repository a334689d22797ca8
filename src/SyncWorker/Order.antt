-- ===== src/SyncWorker/Order.antt =====
-- apps/carpeos-sync-worker/src/index.ts: how the order of a zone's rows takes a new row that has the
-- greatest number.
use carpe_os.Common.{
  ℕ, ◌<◌, ◌≡◌, refl, ap, ◌∙◌, String, List, [], ◌∷◌, ◌++◌, str_eq, if◌then◌else◌, arith, Bool-cases,
  inl, inr, All,
}
use carpe_os.SyncWorker.Store.{EventRow, ErasureRow}
use carpe_os.SyncWorker.Pull.{
  PullRow, pulled_event, pulled_erasure, event_rows, erasure_rows, comes_before, insert_row,
  order_rows,
}

abbrev pub Below : ℕ → PullRow → Type 0
Below n r = r.zone_sequence < n

insert_row-greatest :
    (r : PullRow) (qs : List PullRow)
    → All (Below (r.zone_sequence)) qs
    → insert_row r qs ≡ qs ++ r ∷ []
unfolding insert_row comes_before
insert_row-greatest r [] h = refl
insert_row-greatest r (q ∷ qs) (p, h) = ground (arith, insert_row-greatest r qs h)

insert_row-append :
    (x r : PullRow) (qs : List PullRow)
    → x.zone_sequence < r.zone_sequence
    → insert_row x (qs ++ r ∷ []) ≡ insert_row x qs ++ r ∷ []
unfolding insert_row comes_before
insert_row-append x r [] h = ground arith
insert_row-append x r (q ∷ qs) h = ground (arith, insert_row-append x r qs)

All-insert_row :
    (P : PullRow → Type 0) (r : PullRow) (qs : List PullRow)
    → P r
    → All P qs
    → All P (insert_row r qs)
unfolding insert_row
All-insert_row P r [] p h = (p, tt)
All-insert_row P r (q ∷ qs) p (k, h) = elim (Bool-cases (comes_before q r)) [
  | inl e ↦ rw e (k, All-insert_row P r qs p h)
  | inr e ↦ rw e (p, (k, h))
]

pub All-order_rows : (P : PullRow → Type 0) (qs : List PullRow) → All P qs → All P (order_rows qs)
unfolding order_rows
All-order_rows P [] h = h
All-order_rows P (q ∷ qs) (p, h) = All-insert_row P q (order_rows qs) p (All-order_rows P qs h)

pub order_rows-greatest :
    (r : PullRow) (xs ys : List PullRow)
    → All (Below (r.zone_sequence)) xs
    → All (Below (r.zone_sequence)) ys
    → order_rows (xs ++ (r ∷ ys)) ≡ order_rows (xs ++ ys) ++ r ∷ []
unfolding order_rows
order_rows-greatest r [] ys h k =
    insert_row-greatest r (order_rows ys) (All-order_rows (Below (r.zone_sequence)) ys k)
order_rows-greatest r (x ∷ xs) ys (p, h) k =
    ap (insert_row x) (order_rows-greatest r xs ys h k)
    ∙ insert_row-append x r (order_rows (xs ++ ys)) p

module _ (zone : String) where
  pub event_rows-append :
      (rs : List EventRow) (r : EventRow)
      → event_rows zone (rs ++ r ∷ [])
        ≡ event_rows zone rs ++ (if str_eq r.trust_zone_id zone then pulled_event r ∷ [] else [])
  unfolding event_rows
  event_rows-append [] r = ground arith
  event_rows-append (q ∷ rs) r = ground (arith, event_rows-append rs r)

  pub erasure_rows-append :
      (rs : List ErasureRow) (r : ErasureRow)
      → erasure_rows zone (rs ++ r ∷ [])
        ≡ erasure_rows zone rs
          ++ (if str_eq r.trust_zone_id zone then pulled_erasure r ∷ [] else [])
  unfolding erasure_rows
  erasure_rows-append [] r = ground arith
  erasure_rows-append (q ∷ rs) r = ground (arith, erasure_rows-append rs r)
