-- ===== src/Agentic/Jobs/Retrying.antt =====
-- Retries of packages/agentic/src/jobs.ts: the delay before a retry is bounded, and a job whose
-- every lease runs out ends dead.
use carpe_os.Common.{
  ℕ, zero, suc, ◌+◌, ◌-◌, ◌^◌, ◌≤◌, ◌<◌, ◌≡◌, refl, ◌∙◌, String, true, false, none, some, List, [],
  ◌∷◌, arith, ok, leb, min, eq_refl,
}
use native.Mathlib.Nat.{one-le-pow, pow-le-pow_right}
use carpe_os.Agentic.Types.{AgenticJob, Instant, dead}
use carpe_os.Agentic.Jobs.Store.{Db, read_job}
use carpe_os.Agentic.Jobs.Lease.{
  is_leaseable, is_exhausted, leased_job, exhausted_job, lease_current, lease_agentic_job_by_id,
}
use carpe_os.Agentic.Jobs.Finish.{backoff_base_ms, bounded_backoff}
use carpe_os.Agentic.Jobs.Steps.{Step, grant, give_up}
use carpe_os.Agentic.Jobs.Invariant.{IsSound}
use carpe_os.Agentic.Jobs.Writes.{written, written-IsSound, write_job-moved, read_job-written}
use carpe_os.Agentic.Jobs.Granting.{lease_agentic_job_by_id_complete}
use carpe_os.Agentic.Jobs.Runs.{Call, lease_one, perform, run}

-- The delay before a retry is at least one second and less than 1025 seconds, whatever the hash of
-- the job's identifier: the cap of one hour is never reached.
pub bounded_backoff-bounds :
    (hash_number : String → ℕ) (now attempts : ℕ) (seed : String)
    → (now + 1000 ≤ bounded_backoff hash_number now attempts seed)
      × (bounded_backoff hash_number now attempts seed < now + 1025000)
unfolding bounded_backoff
bounded_backoff-bounds hash_number now attempts seed =
    let low : 1 ≤ 2 ^ min 10 (attempts - 1) = one-le-pow _ 2 (omega arith) in
    let high : 2 ^ min 10 (attempts - 1) ≤ 2 ^ 10 =
      pow-le-pow_right {n = 2} (omega arith) {j = 10} (omega arith) in
    omega arith

-- A later attempt never waits less, before jitter.
pub backoff_base_ms_mono : (a b : ℕ) → a ≤ b → backoff_base_ms a ≤ backoff_base_ms b
unfolding backoff_base_ms
backoff_base_ms_mono a b h =
    let grows : 2 ^ min 10 (a - 1) ≤ 2 ^ min 10 (b - 1) =
      pow-le-pow_right {n = 2} (omega arith) (omega arith) in
    omega arith

-- A worker that takes job `id` under each lease and crashes: `n` lease calls, each when the lease
-- before it has run out.
unfoldable pub crash_calls : (id lease : String) (ms : ℕ) → ℕ → Instant → List Call
crash_calls id lease ms zero now = []
crash_calls id lease ms (suc n) now =
    lease_one id ms now lease ∷ crash_calls id lease ms n (now + ms)

module _ (sha256_hex : String → String) (hash_number : String → ℕ) (sanitize : String → String)
    (id lease : String) (ms : ℕ) (positive : 1 ≤ ms) where
  run_cons :
      (db db' : Db) (c : Call) (cs : List Call)
      → perform sha256_hex hash_number sanitize db c ≡ ok db'
      → run sha256_hex hash_number sanitize db (c ∷ cs) ≡ run sha256_hex hash_number sanitize db' cs
  unfolding run
  run_cons db db' c cs e = rw e

  perform_grant :
      (db : Db) (now : Instant) (j : AgenticJob)
      → IsSound sha256_hex db
      → read_job db id ≡ some j
      → is_leaseable j now ≡ true
      → is_exhausted j ≡ false
      → perform sha256_hex hash_number sanitize db (lease_one id ms now lease)
        ≡ ok (written db id (leased_job lease (now + ms) now j))
  unfolding perform
  perform_grant db now j s held due fresh = rw (
      lease_agentic_job_by_id_complete sha256_hex hash_number sanitize db id ms now lease j positive
        s held due (ground arith))

  perform_give_up :
      (db : Db) (now : Instant) (j : AgenticJob)
      → IsSound sha256_hex db
      → read_job db id ≡ some j
      → is_leaseable j now ≡ true
      → is_exhausted j ≡ true
      → perform sha256_hex hash_number sanitize db (lease_one id ms now lease)
        ≡ ok (written db id (exhausted_job "max_attempts_exhausted_on_lease" now j))
  unfolding perform lease_agentic_job_by_id lease_current
  perform_give_up db now j s held due spent =
      let some_ms : leb 1 ms ≡ true = ground arith in
      let note : String = "max_attempts_exhausted_on_lease" in
      let st : Step hash_number sanitize now none j (exhausted_job note now j) =
        give_up note (rw due) spent in
      rw (some_ms, held, lease_current)
        (rw (due, spent, write_job-moved hash_number sanitize db id st held sha256_hex s))

  -- In a sound table, when a job that may be leased has `k` attempts left, `k + 1` crashed
  -- leases, each of the same positive duration and taken when the one before has run out, leave
  -- it dead: it is not leased for ever.
  pub crash_calls-dead :
      (k : ℕ) (db : Db) (now : Instant) (j : AgenticJob)
      → IsSound sha256_hex db
      → read_job db id ≡ some j
      → is_leaseable j now ≡ true
      → j.attempt + k ≡ j.max_attempts
      → (j' : AgenticJob) × (read_job
            (run sha256_hex hash_number sanitize db (crash_calls id lease ms (suc k) now))
            id
          ≡ some j')
        × (j'.state ≡ dead)
  unfolding run crash_calls
  crash_calls-dead zero db now j s held due left =
      let note : String = "max_attempts_exhausted_on_lease" in
      let spent : is_exhausted j ≡ true = ground arith in
      let st : Step hash_number sanitize now none j (exhausted_job note now j) =
        give_up note (rw due) spent in
      (
        exhausted_job note now j,
        rw
            (run_cons db (written db id (exhausted_job note now j)) (lease_one id ms now lease) []
              (perform_give_up db now j s held due spent))
            (read_job-written hash_number sanitize db id st held id ∙ rw (eq_refl id)),
        refl,
      )
  crash_calls-dead (suc k) db now j s held due left =
      let fresh : is_exhausted j ≡ false = ground arith in
      let next = leased_job lease (now + ms) now j in
      let st : Step hash_number sanitize now none j next = grant lease (now + ms) due fresh in
      rw
        (run_cons db (written db id next) (lease_one id ms now lease)
          (crash_calls id lease ms (suc k) (now + ms)) (perform_grant db now j s held due fresh))
        (crash_calls-dead k (written db id next) (now + ms) next
          (written-IsSound hash_number sanitize db id st held sha256_hex s)
          (read_job-written hash_number sanitize db id st held id ∙ rw (eq_refl id))
          (unfold is_leaseable in ground arith) (omega arith))
