-- ===== src/Agentic/Jobs/Finish.antt =====
-- packages/agentic/src/jobs.ts: completing and failing a leased job. `hash_number` reads the first
-- six hexadecimal digits of the platform's SHA-256 of a text as a number; `sanitize` is
-- `sanitizeAgenticError`, a chain of regular expressions.
use carpe_os.Common.{
  ℕ, ◌+◌, ◌-◌, ◌*◌, ◌%◌, ◌^◌, min, String, Bool, true, false, ◌&&◌, Option, none, some, str_eq,
  if◌then◌else◌, or_else, or_option, Fallible, ok, ◌>>=◌,
}
use carpe_os.Agentic.Types.{AgenticJob, CanonicalEffect, Instant, pending, succeeded, blocked, dead}
use carpe_os.Agentic.Jobs.Store.{Db, get_agentic_job, write_job, without_lease}
use carpe_os.Agentic.Jobs.Query.{is_leased}
use carpe_os.Agentic.Jobs.Lease.{is_exhausted}

abbrev option_is : Option String → String → Bool
option_is none s = false
option_is (some t) s = str_eq t s

-- the job that a worker may finish: leased, under the worker's own lease
unfoldable pub holds_lease : AgenticJob → String → Bool
holds_lease j lease = is_leased j.state && option_is j.lease_id lease

abbrev pub completed_job :
    Option String → Option CanonicalEffect → Instant → AgenticJob → AgenticJob
completed_job output effect now j = record (without_lease j) {
  state = succeeded;
  output_digest = or_option output j.output_digest;
  canonical_effect = or_else effect j.canonical_effect;
  finished_at = some now;
  updated_at = now;
  error_code = none;
  last_error = none;
}

-- What both calls do with the job that they read: they refuse a worker who does not hold the
-- lease, and otherwise write the job that `finish` makes. The answer, and the table after it.
unfoldable pub finish_current :
    Db → (lease_id : String) → (AgenticJob → AgenticJob) → Option AgenticJob → Fallible (Bool × Db)
finish_current db lease finish none = ok (false, db)
finish_current db lease finish (some j) =
    if holds_lease j lease
    then (write_job db (finish j) >>= λ db'. ok (true, db'))
    else ok (false, db)

unfoldable pub complete_agentic_job :
    Db
    → (job_id lease_id : String) (output_digest : Option String)
      (canonical_effect : Option CanonicalEffect) (now : Instant)
    → Fallible (Bool × Db)
complete_agentic_job db id lease output effect now =
    finish_current db lease (completed_job output effect now) (get_agentic_job db id)

-- `2 ** Math.min(10, Math.max(0, attempts - 1))` seconds, at most an hour; `-` stops at 0
unfoldable pub backoff_base_ms : ℕ → ℕ
backoff_base_ms attempts = min 3600000 (1000 * 2 ^ min 10 (attempts - 1))

module _ (hash_number : String → ℕ) where
  unfoldable pub bounded_backoff : Instant → ℕ → String → Instant
  unfolding backoff_base_ms
  bounded_backoff now attempts seed = now + backoff_base_ms attempts + hash_number seed % 1000

module _ (hash_number : String → ℕ) (sanitize : String → String) where
  -- the three ways in which a failed attempt ends
  unfoldable pub failed_job :
      (error_code : String) (error : Option String) (block : Bool)
      → Instant
      → AgenticJob
      → AgenticJob
  failed_job code error block now j =
      let failed = record (without_lease j) {
        updated_at = now;
        error_code = some code;
        last_error = some (sanitize (or_else error code));
      } in
      if block
      then record failed { state = blocked; finished_at = some now }
      else if is_exhausted j
      then record failed { state = dead; finished_at = some now }
      else record failed {
        state = pending;
        available_at = bounded_backoff hash_number now j.attempt j.job_id;
        finished_at = none;
      }

  unfoldable pub fail_agentic_job :
      Db
      → (job_id lease_id error_code : String) (error : Option String) (block : Bool) (now : Instant)
      → Fallible (Bool × Db)
  fail_agentic_job db id lease code error block now =
      finish_current db lease (failed_job code error block now) (get_agentic_job db id)
