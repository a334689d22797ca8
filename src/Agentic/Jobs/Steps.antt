-- ===== src/Agentic/Jobs/Steps.antt =====
-- The legal moves of one job of packages/agentic/src/jobs.ts, as a relation: what every write of
-- the store has to be. A move is labelled with its instant and with the lease of the worker who
-- makes it, if a worker does.
use carpe_os.Common.{
  ℕ, ◌+◌, ◌≡◌, refl, ◌⊎◌, inl, inr, String, Bool, true, false, ◌||◌, Option, none, some, arith,
}
use carpe_os.Agentic.Types.{AgenticJob, CanonicalEffect, Instant, leased}
use carpe_os.Agentic.Jobs.Query.{is_pending, is_leased, is_terminal_agentic_state}
use carpe_os.Agentic.Jobs.Lease.{is_leaseable, is_exhausted, exhausted_job, leased_job}
use carpe_os.Agentic.Jobs.Finish.{holds_lease, completed_job, failed_job}
use carpe_os.Agentic.Jobs.Reclaim.{has_expired, reclaimed_job}

-- what identifies a job, and its bound on attempts, never change
pub record SameStage (j j' : AgenticJob) : Type 0 where
  pub job_id : j'.job_id ≡ j.job_id
  pub zone : j'.trust_zone_id ≡ j.trust_zone_id
  pub source : j'.source_event_id ≡ j.source_event_id
  pub stage : j'.stage ≡ j.stage
  pub digest : j'.input_digest ≡ j.input_digest
  pub schema : j'.schema ≡ j.schema
  pub policy : j'.policy ≡ j.policy
  pub model : j'.model_id ≡ j.model_id
  pub bound : j'.max_attempts ≡ j.max_attempts

module _ (hash_number : String → ℕ) (sanitize : String → String) where
  pub data Step (now : Instant) : Option String → AgenticJob → AgenticJob → Type 0 where
    grant :
        {j : AgenticJob} (lease : String) (expires : Instant)
        → is_leaseable j now ≡ true
        → is_exhausted j ≡ false
        → Step now none j (leased_job lease expires now j)
    give_up :
        {j : AgenticJob} (note : String)
        → is_leaseable j now || has_expired j now || is_pending j.state ≡ true
        → is_exhausted j ≡ true
        → Step now none j (exhausted_job note now j)
    reclaim :
        {j : AgenticJob}
        → has_expired j now ≡ true
        → is_exhausted j ≡ false
        → Step now none j (reclaimed_job now j)
    complete :
        {j : AgenticJob} (lease : String) (output : Option String) (effect : Option CanonicalEffect)
        → holds_lease j lease ≡ true
        → Step now (some lease) j (completed_job output effect now j)
    fail :
        {j : AgenticJob} (lease code : String) (error : Option String) (block : Bool)
        → holds_lease j lease ≡ true
        → Step now (some lease) j (failed_job hash_number sanitize code error block now j)

  -- a job moves only while it is pending or leased
  pub Step-live :
      {now : Instant} {by : Option String} {j j' : AgenticJob}
      → Step now by j j'
      → is_terminal_agentic_state j.state ≡ false
  unfolding is_leaseable holds_lease
  Step-live (grant lease expires h x) = ground arith
  Step-live (give_up note h x) = ground arith
  Step-live (reclaim h x) = ground arith
  Step-live (complete lease output effect h) = ground arith
  Step-live (fail lease code error block h) = ground arith

  pub Step-SameStage :
      {now : Instant} {by : Option String} {j j' : AgenticJob} → Step now by j j' → SameStage j j'
  unfolding failed_job
  Step-SameStage (grant lease expires h x) = ground arith
  Step-SameStage (give_up note h x) = ground arith
  Step-SameStage (reclaim h x) = ground arith
  Step-SameStage (complete lease output effect h) = ground arith
  Step-SameStage (fail lease code error block h) = ground arith

  -- a lease uses up one attempt, and nothing else does
  pub Step-attempt :
      {now : Instant} {by : Option String} {j j' : AgenticJob}
      → Step now by j j'
      → ((j'.state ≡ leased) × (j'.attempt ≡ j.attempt + 1))
        ⊎ ((is_leased j'.state ≡ false) × (j'.attempt ≡ j.attempt))
  unfolding failed_job
  Step-attempt (grant lease expires h x) = inl (refl, refl)
  Step-attempt (give_up note h x) = inr (refl, refl)
  Step-attempt (reclaim h x) = inr (refl, refl)
  Step-attempt (complete lease output effect h) = inr (refl, refl)
  Step-attempt (fail lease code error block h) = ground arith
