-- ===== src/Agentic/Jobs/Guarantees.antt =====
-- What packages/agentic/src/jobs.ts promises about every sequence of its calls.
use carpe_os.Common.{
  ℕ, ◌≤◌, ◌<◌, ◌≡◌, ◌≢◌, String, true, Option, some, List, [], arith, All, eq_iff,
}
use carpe_os.Agentic.Types.{AgenticJob, Instant, leased}
use carpe_os.Agentic.Jobs.Store.{Db, read_job}
use carpe_os.Agentic.Jobs.Query.{is_terminal_agentic_state}
use carpe_os.Agentic.Jobs.Lease.{is_leaseable}
use carpe_os.Agentic.Jobs.Finish.{holds_lease}
use carpe_os.Agentic.Jobs.Steps.{Step, grant, give_up, reclaim, complete, fail, SameStage}
use carpe_os.Agentic.Jobs.Invariant.{IsSound}
use carpe_os.Agentic.Jobs.Writes.{read_job-IsSoundJob}
use carpe_os.Agentic.Jobs.History.{
  Evolves, Evolves-IsSound, Evolves-terminal, Evolves-frozen, Evolves-kept,
}
use carpe_os.Agentic.Jobs.Runs.{Call, instant_of, worker_of, run, run-Moves}

abbrev Anything : Instant → Option String → Type 0
Anything now by = Unit

Anything-allowed : (cs : List Call) → All (λ c. Anything (instant_of c) (worker_of c)) cs
Anything-allowed [] = tt
Anything-allowed (List.◌∷◌ c cs) = (tt, Anything-allowed cs)

-- at an instant before `expires`, under another lease than `lease`
abbrev pub IsForeign : Instant → String → Instant → Option String → Type 0
IsForeign expires lease now by = (now < expires) × (by ≢ some lease)

module _ (hash_number : String → ℕ) (sanitize : String → String) where
  -- no foreign move fits a job under a lease that has not expired
  pub leased_stuck :
      (j : AgenticJob) (lease : String) (expires : Instant)
      → j.state ≡ leased
      → j.lease_id ≡ some lease
      → j.lease_expires_at ≡ some expires
      → (now : Instant) (by : Option String) (j' : AgenticJob) → IsForeign expires lease now by
      → Step hash_number sanitize now by j j'
      → ⊥
  unfolding is_leaseable holds_lease
  leased_stuck j lease expires l n t now by j' f (grant l2 e h x) = ground arith
  leased_stuck j lease expires l n t now by j' f (give_up note h x) = ground arith
  leased_stuck j lease expires l n t now by j' f (reclaim h x) = ground arith
  leased_stuck j lease expires l n t now by j' f (complete l2 o e h) =
      ground (arith, eq_iff lease l2)
  leased_stuck j lease expires l n t now by j' f (fail l2 c e b h) = ground (arith, eq_iff lease l2)

  module _ (sha256_hex : String → String) where
    abbrev run_all : Db → List Call → Db
    run_all = run sha256_hex hash_number sanitize

    run-Evolves :
        (db : Db) (cs : List Call)
        → IsSound sha256_hex db
        → Evolves sha256_hex hash_number sanitize Anything db (run_all db cs)
    run-Evolves db cs s =
        run-Moves sha256_hex hash_number sanitize Anything db cs s (Anything-allowed cs)

    -- Whatever calls were made on an empty table, every stored row's columns agree with its JSON,
    -- and its job passes `assertJob`, bears the identifier of its digest, has a lease exactly while
    -- it is leased and an end exactly when it is terminal, and has not passed its attempts.
    pub run-IsSound : (cs : List Call) → IsSound sha256_hex (run_all [] cs)
    run-IsSound cs = Evolves-IsSound sha256_hex hash_number sanitize (run-Evolves [] cs tt) tt

    -- In a sound table, a job that succeeded, was blocked or died is never changed again, by
    -- any further calls.
    pub run-terminal :
        (db : Db) (cs : List Call) (id : String) (j : AgenticJob)
        → IsSound sha256_hex db
        → read_job db id ≡ some j
        → is_terminal_agentic_state j.state ≡ true
        → read_job (run_all db cs) id ≡ some j
    run-terminal db cs id j s h t =
        Evolves-terminal sha256_hex hash_number sanitize id j t (run-Evolves db cs s) h

    -- In a sound table, calls never lose a job, never change what identifies its stage, and
    -- never lower its count of attempts, which stays within the job's bound.
    pub run-kept :
        (db : Db) (cs : List Call) (id : String) (j : AgenticJob)
        → IsSound sha256_hex db
        → read_job db id ≡ some j
        → (j' : AgenticJob) × (read_job (run_all db cs) id ≡ some j')
          × SameStage j j'
          × (j.attempt ≤ j'.attempt)
          × (j'.attempt ≤ j.max_attempts)
    run-kept db cs id j s h =
        let e = run-Evolves db cs s in
        let (j', found, stage, more) = Evolves-kept sha256_hex hash_number sanitize id j e h in
        let sound =
          read_job-IsSoundJob sha256_hex (run_all db cs) id
            (Evolves-IsSound sha256_hex hash_number sanitize e s) found in
        (j', found, stage, more, omega (arith, stage.bound, sound.bounded))

    -- In a sound table, a job that is leased until `expires` is as it was after any calls that
    -- are made before `expires` and under other leases: no other worker is given the job or
    -- finishes it, and no sweep takes it back.
    pub run-exclusive :
        (db : Db) (cs : List Call) (id : String) (j : AgenticJob) (lease : String)
        (expires : Instant)
        → IsSound sha256_hex db
        → read_job db id ≡ some j
        → j.state ≡ leased
        → j.lease_id ≡ some lease
        → j.lease_expires_at ≡ some expires
        → All (λ c. IsForeign expires lease (instant_of c) (worker_of c)) cs
        → read_job (run_all db cs) id ≡ some j
    run-exclusive db cs id j lease expires s h l n t f =
        Evolves-frozen sha256_hex hash_number sanitize id j (leased_stuck j lease expires l n t)
          (run-Moves sha256_hex hash_number sanitize (IsForeign expires lease) db cs s f) h
