-- ===== src/Agentic/Jobs/Tests.antt =====
-- packages/agentic/src/jobs.ts at concrete jobs, with the identity in place of the hash.
use carpe_os.Common.{
  ℕ, ◌≤◌, ◌≡◌, ◌≢◌, refl, String, true, false, Option, none, some, List, [], ◌∷◌, arith, ok, eq_iff,
  length, All,
}
use carpe_os.Common.Table.{find}
use carpe_os.Agentic.Types.{AgenticJob, EnqueueSpec, pending, dead, extract, none_yet}
use carpe_os.Agentic.Digest.{make_agentic_job_id, job_id_of_digest}
use carpe_os.Agentic.Jobs.Store.{
  JobRow, Db, row_of, read_job, enqueue_agentic_job, digest_input, assert_job,
}
use carpe_os.Agentic.Jobs.Query.{order_by, select_rows, available_time, wants_lease}
use carpe_os.Agentic.Jobs.Lease.{is_leaseable, leased_job, lease_agentic_jobs}
use carpe_os.Agentic.Jobs.Finish.{completed_job, complete_agentic_job}
use carpe_os.Agentic.Jobs.Steps.{SameStage}
use carpe_os.Agentic.Jobs.Invariant.{IsSound, IsSoundJob}
use carpe_os.Agentic.Jobs.Enqueue.{enqueue_idempotent}
use carpe_os.Agentic.Jobs.Runs.{Call, enqueue, lease_one, complete, sweep, run}
use carpe_os.Agentic.Jobs.Guarantees.{run-IsSound, run-terminal, run-kept, run-exclusive}
use carpe_os.Agentic.Jobs.Granting.{Gives, IsGranted, lease_agentic_jobs-IsGranted, complete_once}
use carpe_os.Agentic.Jobs.Retrying.{crash_calls, crash_calls-dead}

abbrev hash : String → String
hash s = s

abbrev hash_number : String → ℕ
hash_number s = 7

abbrev clean : String → String
clean s = s

abbrev spec : EnqueueSpec
spec = record {
  trust_zone_id = "zone";
  source_event_id = "evt";
  stage = extract;
  model_id = none;
  pack_digest = some "sha256:p";
  prev_output_digest = none;
  prompt_version = none;
  schema_version = none;
  canonical_effect = none;
  max_attempts = some 1;
  available_at = none;
  now = 1000;
}

abbrev again : EnqueueSpec
again = record spec { now = 9000; max_attempts = some 3 }

abbrev waiting : AgenticJob
waiting = record {
  schema = "carpeos.agentic.job/v1";
  job_id = "agj_d";
  trust_zone_id = "zone";
  source_event_id = "evt";
  stage = extract;
  state = pending;
  policy = "agentic_v1";
  model_id = "fake";
  input_digest = "d";
  output_digest = none;
  attempt = 0;
  max_attempts = 2;
  available_at = 1000;
  leased_at = none;
  lease_id = none;
  lease_expires_at = none;
  finished_at = none;
  error_code = none;
  last_error = none;
  canonical_effect = none_yet;
  created_at = 1000;
  updated_at = 1000;
}

abbrev taken : AgenticJob
taken = leased_job "lease_a" 5000 2000 waiting

abbrev finished : AgenticJob
finished = completed_job (some "out") none 3000 taken

waiting-IsSoundJob : IsSoundJob hash waiting
unfolding assert_job job_id_of_digest
waiting-IsSoundJob = record {
  asserted = refl;
  named = refl;
  lease_named = refl;
  lease_timed = refl;
  bounded = omega arith;
  finished = refl;
}

taken-IsSoundJob : IsSoundJob hash taken
unfolding assert_job job_id_of_digest
taken-IsSoundJob = record {
  asserted = refl;
  named = refl;
  lease_named = refl;
  lease_timed = refl;
  bounded = omega arith;
  finished = refl;
}

finished-IsSoundJob : IsSoundJob hash finished
unfolding assert_job job_id_of_digest
finished-IsSoundJob = record {
  asserted = refl;
  named = refl;
  lease_named = refl;
  lease_timed = refl;
  bounded = omega arith;
  finished = refl;
}

abbrev table : AgenticJob → Db
table j = row_of j ∷ []

IsSound-table : (j : AgenticJob) → IsSoundJob hash j → IsSound hash (table j)
IsSound-table j s = (record { columns = refl; job = s }, tt)

held_waiting : read_job (table waiting) "agj_d" ≡ some waiting
unfolding read_job find
held_waiting = refl

held_taken : read_job (table taken) "agj_d" ≡ some taken
unfolding read_job find
held_taken = refl

held_finished : read_job (table finished) "agj_d" ≡ some finished
unfolding read_job find
held_finished = refl

waiting_due : is_leaseable waiting 2000 ≡ true
unfolding is_leaseable
waiting_due = refl

-- a stage is enqueued, leased, and dies at its second lease, since it may be tried once
abbrev script : List Call
script =
    enqueue spec ∷ lease_one (make_agentic_job_id hash (digest_input spec)) 500 2000 "lease_a" ∷ []

abbrev others : List Call
others =
    lease_one "agj_d" 500 3000 "lease_b"
    ∷ complete "agj_d" "lease_b" none none 3500
    ∷ sweep none 4000 none
    ∷ []

enqueue_idempotent_example :
    (j : AgenticJob) × (db' : Db) × (enqueue_agentic_job hash [] spec ≡ ok (j, db'))
    × (enqueue_agentic_job hash db' again ≡ ok (j, db'))
enqueue_idempotent_example = enqueue_idempotent hash [] spec again tt refl refl

run-IsSound_example : IsSound hash (run hash hash_number clean [] script)
run-IsSound_example = run-IsSound hash_number clean hash script

run-terminal_example :
    read_job (run hash hash_number clean (table finished) others) "agj_d" ≡ some finished
run-terminal_example =
    run-terminal hash_number clean hash (table finished) others "agj_d" finished
      (IsSound-table finished finished-IsSoundJob) held_finished refl

run-kept_example :
    (j' : AgenticJob) × (read_job (run hash hash_number clean (table waiting) others) "agj_d"
      ≡ some j')
    × SameStage waiting j'
    × (0 ≤ j'.attempt)
    × (j'.attempt ≤ 2)
run-kept_example =
    run-kept hash_number clean hash (table waiting) others "agj_d" waiting
      (IsSound-table waiting waiting-IsSoundJob) held_waiting

lease_b≢lease_a : ◌≢◌ {A = Option String} (some "lease_b") (some "lease_a")
lease_b≢lease_a = ground (arith, eq_iff "lease_b" "lease_a")

run-exclusive_example :
    read_job (run hash hash_number clean (table taken) others) "agj_d" ≡ some taken
run-exclusive_example =
    run-exclusive hash_number clean hash (table taken) others "agj_d" taken "lease_a" 5000
      (IsSound-table taken taken-IsSoundJob) held_taken refl refl refl
      ((omega arith, λ e. cc e), ((omega arith, lease_b≢lease_a), ((omega arith, λ e. cc e), tt)))

lease_agentic_jobs-IsGranted_example :
    Gives
      (lease_agentic_jobs (table waiting) 3 500 2000 "lease_a" none)
      (λ ls db'. All (IsGranted 2000 2500 "lease_a" db') ls × (length ls ≤ 3))
lease_agentic_jobs-IsGranted_example =
    lease_agentic_jobs-IsGranted hash hash_number clean (table waiting) 3 500 2000 "lease_a" none
      (omega arith) (omega arith) (IsSound-table waiting waiting-IsSoundJob)

complete_once_example :
    (db' : Db) × (complete_agentic_job (table taken) "agj_d" "lease_a" (some "out") none 3000
      ≡ ok (true, db'))
    × (read_job db' "agj_d" ≡ some finished)
    × (complete_agentic_job db' "agj_d" "lease_a" none none 4000 ≡ ok (false, db'))
complete_once_example =
    complete_once hash hash_number clean (table taken) "agj_d" "lease_a" "lease_a" (some "out") none
      none none 3000 4000 taken (IsSound-table taken taken-IsSoundJob) held_taken refl refl

crash_calls-dead_example :
    (j' : AgenticJob) × (read_job
        (run hash hash_number clean (table waiting) (crash_calls "agj_d" "lease_a" 500 3 2000))
        "agj_d"
      ≡ some j')
    × (j'.state ≡ dead)
crash_calls-dead_example =
    crash_calls-dead hash hash_number clean "agj_d" "lease_a" 500 (omega arith) 2 (table waiting)
      2000 waiting (IsSound-table waiting waiting-IsSoundJob) held_waiting waiting_due refl

abbrev two_rows : Db
two_rows = row_of (record waiting { job_id = "agj_z" }) ∷ row_of waiting ∷ []

abbrev due_rows : List JobRow
due_rows = select_rows available_time (wants_lease none 2000) 1 two_rows

-- of two jobs that are due at once, the one with the smaller identifier is selected
due_test : due_rows ≡ row_of waiting ∷ []
unfolding select_rows wants_lease order_by
due_test = refl
