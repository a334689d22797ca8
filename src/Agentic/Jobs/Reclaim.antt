-- ===== src/Agentic/Jobs/Reclaim.antt =====
-- packages/agentic/src/jobs.ts: the sweep over expired leases and exhausted jobs.
use carpe_os.Common.{
  ℕ, ◌+◌, String, Bool, ◌&&◌, ◌||◌, not, Option, none, some, List, [], ◌∷◌, leb, if◌then◌else◌,
  or_else, or_option, Fallible, ok, guard, ◌>>=◌, ◌>>◌,
}
use carpe_os.Agentic.Types.{AgenticJob, Instant, pending}
use carpe_os.Agentic.Jobs.Store.{JobRow, Db, read_job, write_job, without_lease}
use carpe_os.Agentic.Jobs.Query.{
  is_pending, is_leased, due, wants_reclaim, updated_time, select_rows,
}
use carpe_os.Agentic.Jobs.Lease.{is_exhausted, exhausted_job}

pub record Sweep : Type 0 where
  pub reclaimed : ℕ
  pub dead : ℕ
  pub processed : ℕ

abbrev pub has_expired : AgenticJob → Instant → Bool
has_expired j now = is_leased j.state && due j.lease_expires_at now

abbrev pub reclaimed_job : Instant → AgenticJob → AgenticJob
reclaimed_job now j = record (without_lease j) {
  state = pending;
  available_at = now;
  finished_at = none;
  updated_at = now;
  error_code = or_option j.error_code (some "lease_expired_reclaim");
  last_error = or_option j.last_error (some "lease_expired_reclaim");
}

-- What the loop does with a job that it read, `none` for no job. A job that is not exhausted here
-- has an expired lease, by the test above it, so that the code's `else if` has no other case.
unfoldable pub reclaim_current : Db → Instant → Sweep → Option AgenticJob → Fallible (Sweep × Db)
reclaim_current db now s none = ok (s, db)
reclaim_current db now s (some j) =
    if not (has_expired j now || is_pending j.state && is_exhausted j)
    then ok (s, db)
    else if is_exhausted j
    then (write_job db (exhausted_job "max_attempts_exhausted_on_reclaim" now j) >>= λ db'.
        ok (record s { processed = s.processed + 1; dead = s.dead + 1 }, db'))
    else (write_job db (reclaimed_job now j) >>= λ db'.
        ok (record s { processed = s.processed + 1; reclaimed = s.reclaimed + 1 }, db'))

unfoldable pub reclaim_rows : Db → ℕ → Instant → Sweep → List JobRow → Fallible (Sweep × Db)
reclaim_rows db limit now s [] = ok (s, db)
reclaim_rows db limit now s (r ∷ rs) =
    let step = reclaim_current db now s (read_job db r.job_id) in
    let rest = step >>= λ (s', db'). reclaim_rows db' limit now s' rs in
    if leb limit s.processed then ok (s, db) else rest

abbrev pub no_sweep : Sweep
no_sweep = record { reclaimed = 0; dead = 0; processed = 0 }

-- An error anywhere rolls the transaction back: it leaves no table behind.
unfoldable pub reclaim_expired_agentic_jobs :
    Db → (limit : Option ℕ) (now : Instant) (zone : Option String) → Fallible (Sweep × Db)
reclaim_expired_agentic_jobs db limit now zone = do
  guard (leb 1 (or_else limit 500)) "reclaim limit must be a positive integer"
  reclaim_rows db (or_else limit 500) now no_sweep
      (select_rows updated_time (wants_reclaim zone now) (or_else limit 500) db)
