-- ===== src/SyncWorker/Pages.antt =====
-- apps/carpeos-sync-worker/src/index.ts: the pages that pulls give, against the list of a zone's
-- records.
use carpe_os.Common.{
  ℕ, zero, suc, ◌+◌, ◌-◌, ◌≡◌, refl, sym, subst, true, none, some, List, [], ◌∷◌, arith, ltb, All,
  length, take, drop, keep, or_else,
}
use native.Mathlib.Nat.{add-zero, sub-zero}
use carpe_os.Common.Text.{text_lt}
use carpe_os.Schema.{SyncPullRequest}
use carpe_os.SyncWorker.Store.{Env}
use carpe_os.SyncWorker.Pull.{
  PullRow, zone_log, is_after, epoch_text, final_sequence, page_of, select_rows, pull_page,
}
use carpe_os.SyncWorker.Sequences.{Numbered, IsFilledIn}

-- every record has been recorded after the time, as text, from which a pull without one starts
abbrev pub IsRecorded : PullRow → Type 0
IsRecorded r = text_lt epoch_text r.recorded_sort ≡ true

drop-nil : (m : ℕ) → drop {A = PullRow} m [] ≡ []
drop-nil zero = refl
drop-nil (suc m) = refl

drop_none : (m : ℕ) (rs : List PullRow) → m ≡ 0 → drop m rs ≡ rs
drop_none m rs e = rw e

drop_one : (m k : ℕ) (r : PullRow) (rs : List PullRow) → m ≡ suc k → drop m (r ∷ rs) ≡ drop k rs
drop_one m k r rs e = rw e

-- the rows after a number are what is left when as many are dropped
keep-drop :
    (n after : ℕ) (rs : List PullRow)
    → Numbered n rs
    → All IsRecorded rs
    → keep (is_after after epoch_text) rs ≡ drop (after - n) rs
keep-drop n after [] h p = sym (drop-nil (after - n))
keep-drop n after (r ∷ rs) (h, hs) (p, ps) = ground (
  arith,
  keep-drop (suc n) after rs hs ps,
  drop_none (after - n) (r ∷ rs),
  drop_none (after - suc n) rs,
  drop_one (after - n) (after - suc n) r rs,
)

take-nil : (k : ℕ) → take {A = PullRow} k [] ≡ []
take-nil zero = refl
take-nil (suc k) = refl

take-take : (k : ℕ) (rs : List PullRow) → take k (take (k + 1) rs) ≡ take k rs
take-take zero rs = refl
take-take (suc k) [] = ground arith
take-take (suc k) (r ∷ rs) = ground (arith, take-take k rs)

-- the extra row tells whether there are more
ltb-length-take : (k : ℕ) (rs : List PullRow) → ltb k (length (take (k + 1) rs)) ≡ ltb k (length rs)
ltb-length-take zero [] = refl
ltb-length-take zero (r ∷ rs) = ground arith
ltb-length-take (suc k) [] = rw (take-nil (suc k + 1))
ltb-length-take (suc k) (r ∷ rs) = ground (arith, ltb-length-take k rs)

pub take-Numbered : (k n : ℕ) (rs : List PullRow) → Numbered n rs → Numbered n (take k rs)
take-Numbered zero n rs h = tt
take-Numbered (suc k) n [] h = tt
take-Numbered (suc k) n (r ∷ rs) (e, h) = (e, take-Numbered k (suc n) rs h)

pub drop-Numbered : (k n : ℕ) (rs : List PullRow) → Numbered n rs → Numbered (n + k) (drop k rs)
drop-Numbered zero n rs h = rw (add-zero n) h
drop-Numbered (suc k) n [] h = tt
drop-Numbered (suc k) n (r ∷ rs) (e, h) =
    let same : suc n + k ≡ n + suc k = omega arith in
    subst (λ m. Numbered m (drop k rs)) same (drop-Numbered k (suc n) rs h)

pub final-Numbered :
    (n : ℕ) (r : PullRow) (rs : List PullRow)
    → Numbered n (r ∷ rs)
    → final_sequence (r ∷ rs) ≡ some (n + length (r ∷ rs))
unfolding final_sequence
final-Numbered n r [] (e, h) = ground arith
final-Numbered n r (q ∷ qs) (e, h) = ground (arith, final-Numbered (suc n) q qs h)

-- A pull that names no time gives the page of the zone's list of records that starts after the
-- number it names: as many records as its limit allows, in the order of their numbers, and whether
-- more follow. The zone must be numbered and hold no time that is not after the year 0.
pub pull_page_lem :
    (env : Env) (pull : SyncPullRequest)
    → IsFilledIn pull.trust_zone_id env
    → All IsRecorded (zone_log pull.trust_zone_id env)
    → pull.recorded_after ≡ none
    → let rest = drop (or_else pull.after_sequence 0) (zone_log pull.trust_zone_id env) in
      pull_page env pull ≡ page_of (take pull.limit rest) (ltb pull.limit (length rest))
unfolding pull_page select_rows zone_log
pull_page_lem env pull full recorded e = rw (
  e,
  keep-drop 0 (or_else pull.after_sequence 0) (zone_log pull.trust_zone_id env) (full.numbered)
      recorded,
  sub-zero (or_else pull.after_sequence 0),
  take-take pull.limit (drop (or_else pull.after_sequence 0) (zone_log pull.trust_zone_id env)),
  ltb-length-take pull.limit
      (drop (or_else pull.after_sequence 0) (zone_log pull.trust_zone_id env)),
)
