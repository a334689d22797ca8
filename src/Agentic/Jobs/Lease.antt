-- ===== src/Agentic/Jobs/Lease.antt =====
-- packages/agentic/src/jobs.ts: leasing one job, and leasing the jobs that are due.
use carpe_os.Common.{
  ℕ, ◌+◌, String, Bool, ◌&&◌, ◌||◌, not, Option, none, some, List, [], ◌∷◌, leb, if◌then◌else◌,
  or_option, Fallible, ok, guard, ◌>>=◌, ◌>>◌,
}
use carpe_os.Agentic.Types.{AgenticJob, Instant, leased, dead}
use carpe_os.Agentic.Jobs.Store.{JobRow, Db, read_job, write_job, without_lease}
use carpe_os.Agentic.Jobs.Query.{
  is_pending, is_leased, due, wants_lease, available_time, select_rows,
}

pub record LeasedAgenticJob : Type 0 where
  pub lease_id : String
  pub lease_expires_at : Instant
  pub job : AgenticJob

unfoldable pub is_leaseable : AgenticJob → Instant → Bool
is_leaseable j now =
    leb j.available_at now
    && (is_pending j.state || is_leased j.state && due j.lease_expires_at now)

-- `attempt >= max_attempts`
abbrev pub is_exhausted : AgenticJob → Bool
is_exhausted j = leb j.max_attempts j.attempt

-- the terminal record of a job that has used up its attempts
abbrev pub exhausted_job : String → Instant → AgenticJob → AgenticJob
exhausted_job note now j = record (without_lease j) {
  state = dead;
  finished_at = some now;
  updated_at = now;
  error_code = or_option j.error_code (some "max_attempts_exhausted");
  last_error = or_option j.last_error (some note);
}

abbrev pub leased_job : String → Instant → Instant → AgenticJob → AgenticJob
leased_job lease_id expires now j = record j {
  state = leased;
  attempt = j.attempt + 1;
  lease_id = some lease_id;
  lease_expires_at = some expires;
  leased_at = some now;
  updated_at = now;
  error_code = none;
  last_error = none;
}

-- What both calls do with a job that they read under the lock, `none` for no job; the clock's
-- reading, the lease's end and its identifier are the call's.
unfoldable pub lease_current :
    Db → Instant → Instant → String → Option AgenticJob → Fallible (Option LeasedAgenticJob × Db)
lease_current db now expires lease none = ok (none, db)
lease_current db now expires lease (some j) =
    if not (is_leaseable j now)
    then ok (none, db)
    else if is_exhausted j
    then (write_job db (exhausted_job "max_attempts_exhausted_on_lease" now j) >>= λ db'.
        ok (none, db'))
    else (write_job db (leased_job lease expires now j) >>= λ db'. ok (
      some (record {
        lease_id = lease;
        lease_expires_at = expires;
        job = leased_job lease expires now j;
      }),
      db',
    ))

unfoldable pub lease_agentic_job_by_id :
    Db
    → (job_id : String) (lease_ms : ℕ) (now : Instant) (lease_id : String)
    → Fallible (Option LeasedAgenticJob × Db)
lease_agentic_job_by_id db id lease_ms now lease = do
  guard (leb 1 lease_ms) "leaseMs must be a positive integer"
  lease_current db now (now + lease_ms) lease (read_job db id)

abbrev pub push_lease : Option LeasedAgenticJob → List LeasedAgenticJob → List LeasedAgenticJob
push_lease none xs = xs
push_lease (some l) xs = l ∷ xs

-- the loop over the rows that were selected
unfoldable pub lease_rows :
    Db → Instant → Instant → String → List JobRow → Fallible (List LeasedAgenticJob × Db)
lease_rows db now expires lease [] = ok ([], db)
lease_rows db now expires lease (r ∷ rs) =
    lease_current db now expires lease (read_job db r.job_id) >>= λ (first, db').
    lease_rows db' now expires lease rs >>= λ (others, db''). ok (push_lease first others, db'')

-- An error anywhere rolls the transaction back: it leaves no table behind.
unfoldable pub lease_agentic_jobs :
    Db
    → (limit lease_ms : ℕ) (now : Instant) (lease_id : String) (zone : Option String)
    → Fallible (List LeasedAgenticJob × Db)
lease_agentic_jobs db limit lease_ms now lease zone = do
  guard (leb 1 limit) "lease limit must be a positive integer"
  guard (leb 1 lease_ms) "leaseMs must be a positive integer"
  lease_rows db now (now + lease_ms) lease
      (select_rows available_time (wants_lease zone now) limit db)
