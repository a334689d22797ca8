-- ===== src/Agentic/Jobs/Invariant.antt =====
-- What holds of every job and every row that packages/agentic/src/jobs.ts stores.
use carpe_os.Common.{ℕ, ◌≤◌, ◌≡◌, String, Bool, true, false, Option, none, some, arith, All, ok}
use carpe_os.Agentic.Types.{AgenticJob, Instant}
use carpe_os.Agentic.Digest.{job_id_of_digest}
use carpe_os.Agentic.Jobs.Store.{JobRow, Db, row_of, assert_job}
use carpe_os.Agentic.Jobs.Query.{is_leased, is_terminal_agentic_state}
use carpe_os.Agentic.Jobs.Lease.{is_leaseable}
use carpe_os.Agentic.Jobs.Finish.{holds_lease, failed_job}
use carpe_os.Agentic.Jobs.Steps.{Step, grant, give_up, reclaim, complete, fail}

abbrev pub is_some {ℓ} : {A : Type ℓ} → Option A → Bool
is_some none = false
is_some (some a) = true

module _ (sha256_hex : String → String) where
  pub record IsSoundJob (j : AgenticJob) : Type 0 where
    pub asserted : assert_job j ≡ ok tt
    pub named : j.job_id ≡ job_id_of_digest sha256_hex j.input_digest
    pub lease_named : is_some j.lease_id ≡ is_leased j.state
    pub lease_timed : is_some j.lease_expires_at ≡ is_leased j.state
    pub bounded : j.attempt ≤ j.max_attempts
    pub finished : is_some j.finished_at ≡ is_terminal_agentic_state j.state

  -- the columns of a row say what its JSON says
  pub record IsSoundRow (r : JobRow) : Type 0 where
    pub columns : r ≡ row_of r.job_json
    pub job : IsSoundJob r.job_json

  abbrev pub IsSound : Db → Type 0
  IsSound db = All IsSoundRow db

  module _ (hash_number : String → ℕ) (sanitize : String → String) where
    -- every legal move keeps a job sound
    pub Step-IsSoundJob :
        {now : Instant} {by : Option String} {j j' : AgenticJob}
        → Step hash_number sanitize now by j j'
        → IsSoundJob j
        → IsSoundJob j'
    unfolding is_leaseable holds_lease failed_job assert_job
    Step-IsSoundJob (grant lease expires h x) s = ground arith
    Step-IsSoundJob (give_up note h x) s = ground arith
    Step-IsSoundJob (reclaim h x) s = ground arith
    Step-IsSoundJob (complete lease output effect h) s = ground arith
    Step-IsSoundJob (fail lease code error block h) s = ground arith
