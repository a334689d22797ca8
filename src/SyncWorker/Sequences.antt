-- ===== src/SyncWorker/Sequences.antt =====
-- apps/carpeos-sync-worker/src/index.ts: the numbers of a zone's records, and a row that takes the
-- next one.
use mathlib.Core.List.{append_assoc, append-nil}
use carpe_os.Common.{
  ℕ, suc, ◌+◌, ◌≤◌, ◌≡◌, sym, ap, ◌∙◌, String, List, [], ◌∷◌, ◌++◌, str_eq, eq_iff, if◌then◌else◌,
  arith, All, All-append, length, length-append,
}
use carpe_os.SyncWorker.Store.{CounterRow, Env, last_sequence, next_sequence}
use carpe_os.SyncWorker.Pull.{PullRow, event_rows, erasure_rows, order_rows}
use carpe_os.SyncWorker.Order.{Below, order_rows-greatest}

-- the numbers go up by one from the one after `n`
abbrev pub Numbered : ℕ → List PullRow → Type 0
Numbered n [] = Unit
Numbered n (r ∷ rs) = (r.zone_sequence ≡ suc n) × Numbered (suc n) rs

abbrev pub UpTo : ℕ → PullRow → Type 0
UpTo n r = r.zone_sequence ≤ n

-- the rows of a zone in the two tables have the numbers from 1 to `n`
pub record IsFilled (n : ℕ) (events erasures : List PullRow) : Type 0 where
  pub events_bounded : All (UpTo n) events
  pub erasures_bounded : All (UpTo n) erasures
  pub numbered : Numbered 0 (order_rows (events ++ erasures))
  pub filled : length (order_rows (events ++ erasures)) ≡ n

-- in every zone the records have the numbers from 1 to the counter of the zone
abbrev pub IsFilledIn : String → Env → Type 0
IsFilledIn zone env =
    IsFilled (last_sequence zone env.counters) (event_rows zone env.events)
      (erasure_rows zone env.erasures)

abbrev pub IsSequenced : Env → Type 0
IsSequenced env = (zone : String) → IsFilledIn zone env

UpTo-Below :
    (n : ℕ) (r : PullRow) (xs : List PullRow)
    → r.zone_sequence ≡ suc n
    → All (UpTo n) xs
    → All (Below (r.zone_sequence)) xs
UpTo-Below n r [] e h = tt
UpTo-Below n r (x ∷ xs) e (p, h) = (omega arith, UpTo-Below n r xs e h)

UpTo-suc : (n : ℕ) (xs : List PullRow) → All (UpTo n) xs → All (UpTo (suc n)) xs
UpTo-suc n [] h = tt
UpTo-suc n (x ∷ xs) (p, h) = (omega arith, UpTo-suc n xs h)

Numbered-append :
    (n : ℕ) (xs : List PullRow) (r : PullRow)
    → Numbered n xs
    → r.zone_sequence ≡ suc (n + length xs)
    → Numbered n (xs ++ r ∷ [])
Numbered-append n [] r h e = (omega arith, tt)
Numbered-append n (x ∷ xs) r (p, h) e = (p, Numbered-append (suc n) xs r h (omega arith))

module _ (n : ℕ) (xs ys : List PullRow) (r : PullRow) (next : r.zone_sequence ≡ suc n)
    (full : IsFilled n xs ys) where
  pub log-events : order_rows ((xs ++ r ∷ []) ++ ys) ≡ order_rows (xs ++ ys) ++ r ∷ []
  log-events =
      ap order_rows (append_assoc xs (r ∷ []) ys)
      ∙ order_rows-greatest r xs ys (UpTo-Below n r xs next full.events_bounded)
          (UpTo-Below n r ys next full.erasures_bounded)

  pub log-erasures : order_rows (xs ++ (ys ++ r ∷ [])) ≡ order_rows (xs ++ ys) ++ r ∷ []
  log-erasures =
      ap order_rows (sym (append_assoc xs ys (r ∷ [])))
      ∙ order_rows-greatest r (xs ++ ys) []
          (UpTo-Below n r (xs ++ ys) next
            (All-append (UpTo n) xs ys full.events_bounded full.erasures_bounded))
          tt
      ∙ ap (λ l. order_rows l ++ r ∷ []) (append-nil (xs ++ ys))

  grown-Numbered : Numbered 0 (order_rows (xs ++ ys) ++ r ∷ [])
  grown-Numbered =
      Numbered-append 0 (order_rows (xs ++ ys)) r full.numbered (omega (arith, full.filled))

  grown_filled : length (order_rows (xs ++ ys) ++ r ∷ []) ≡ suc n
  grown_filled = omega (arith, length-append {0} (order_rows (xs ++ ys)) (r ∷ []), full.filled)

  pub IsFilled-events : IsFilled (suc n) (xs ++ r ∷ []) ys
  IsFilled-events = record {
    events_bounded =
        All-append (UpTo (suc n)) xs (r ∷ []) (UpTo-suc n xs full.events_bounded) (omega arith, tt);
    erasures_bounded = UpTo-suc n ys full.erasures_bounded;
    numbered = rw log-events grown-Numbered;
    filled = rw log-events grown_filled;
  }

  pub IsFilled-erasures : IsFilled (suc n) xs (ys ++ r ∷ [])
  IsFilled-erasures = record {
    events_bounded = UpTo-suc n xs full.events_bounded;
    erasures_bounded =
        All-append (UpTo (suc n)) ys (r ∷ []) (UpTo-suc n ys full.erasures_bounded)
          (omega arith, tt);
    numbered = rw log-erasures grown-Numbered;
    filled = rw log-erasures grown_filled;
  }

pub last-next :
    (zone other : String) (cs : List CounterRow)
    → last_sequence zone (next_sequence other cs)
      ≡ (if str_eq other zone then suc (last_sequence zone cs) else last_sequence zone cs)
unfolding last_sequence next_sequence
last-next zone other [] = ground arith
last-next zone other (c ∷ cs) = ground (
  arith,
  last-next zone other cs,
  eq_iff c.trust_zone_id other,
  eq_iff c.trust_zone_id zone,
  eq_iff other zone,
)
