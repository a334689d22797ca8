-- ===== src/Agentic/Jobs/Runs.antt =====
-- Sequences of calls of packages/agentic/src/jobs.ts, by any workers and sweeps in any order. A
-- call that throws rolls back, and leaves the table as it was.
use carpe_os.Common.{
  ℕ, ◌+◌, ◌≡◌, refl, String, Bool, true, false, ◌&&◌, Option, none, some, List, [], ◌∷◌, arith, ok,
  threw, Fallible, Bool-cases, inl, inr, leb, or_else, Option-cases, All,
}
use mathlib.Core.Bool.{and-eq-true_iff}
use carpe_os.Agentic.Types.{EnqueueSpec, CanonicalEffect, Instant}
use carpe_os.Agentic.Jobs.Store.{Db, read_job, enqueue_agentic_job}
use carpe_os.Agentic.Jobs.Query.{
  wants_lease, wants_reclaim, available_time, updated_time, select_rows,
}
use carpe_os.Agentic.Jobs.Lease.{lease_agentic_job_by_id, lease_agentic_jobs}
use carpe_os.Agentic.Jobs.Finish.{complete_agentic_job, fail_agentic_job}
use carpe_os.Agentic.Jobs.Reclaim.{reclaim_expired_agentic_jobs, no_sweep}
use carpe_os.Agentic.Jobs.Invariant.{IsSound}
use carpe_os.Agentic.Jobs.History.{Evolves, same, Evolves-trans, Evolves-IsSound, Succeeds}
use carpe_os.Agentic.Jobs.Operations.{
  lease_current-Moves, lease_rows-Moves, complete-Moves, fail-Moves, reclaim_rows-Moves,
}
use carpe_os.Agentic.Jobs.Enqueue.{
  is_valid_model, spec_job_id, enqueue_known, enqueue_refused, enqueue_moves,
}

pub data Call : Type 0 where
  enqueue : EnqueueSpec → Call
  lease_one : (job_id : String) (lease_ms : ℕ) (now : Instant) (lease_id : String) → Call
  lease_due : (limit lease_ms : ℕ) (now : Instant) (lease_id : String) (zone : Option String) → Call
  complete :
      (job_id lease_id : String) (output : Option String) (effect : Option CanonicalEffect)
      (now : Instant)
      → Call
  fail :
      (job_id lease_id code : String) (error : Option String) (block : Bool) (now : Instant) → Call
  sweep : (limit : Option ℕ) (now : Instant) (zone : Option String) → Call

-- the instant of a call, and the lease under which a worker makes it
abbrev pub instant_of : Call → Instant
instant_of (enqueue spec) = spec.now
instant_of (lease_one _ _ now _) = now
instant_of (lease_due _ _ now _ _) = now
instant_of (complete _ _ _ _ now) = now
instant_of (fail _ _ _ _ _ now) = now
instant_of (sweep _ now _) = now

abbrev pub worker_of : Call → Option String
worker_of (complete _ lease _ _ _) = some lease
worker_of (fail _ lease _ _ _ _) = some lease
worker_of _ = none

-- the arguments that the call does not throw at
abbrev pub is_valid_call : Call → Bool
is_valid_call (enqueue spec) = is_valid_model spec
is_valid_call (lease_one _ ms _ _) = leb 1 ms
is_valid_call (lease_due limit ms _ _ _) = leb 1 limit && leb 1 ms
is_valid_call (sweep limit _ _) = leb 1 (or_else limit 500)
is_valid_call _ = true

-- what becomes of the table
abbrev table_of : {A : Type 0} → Fallible (A × Db) → Fallible Db
table_of (ok (a, db)) = ok db
table_of (threw e) = threw e

abbrev pub Returns : Fallible Db → (Db → Type 0) → Type 0
Returns (ok db) P = P db
Returns (threw e) P = ⊥

table_of-Returns :
    {A : Type 0} (r : Fallible (A × Db)) (P : Db → Type 0) → Succeeds r P → Returns (table_of r) P
table_of-Returns (ok (a, db)) P h = h
table_of-Returns (threw e) P h = h

abbrev pub rolled_back : Db → Fallible Db → Db
rolled_back db (ok db') = db'
rolled_back db (threw e) = db

module _ (sha256_hex : String → String) (hash_number : String → ℕ)
    (sanitize : String → String) where
  unfoldable pub perform : Db → Call → Fallible Db
  perform db (enqueue spec) = table_of (enqueue_agentic_job sha256_hex db spec)
  perform db (lease_one id ms now lease) = table_of (lease_agentic_job_by_id db id ms now lease)
  perform db (lease_due limit ms now lease zone) =
      table_of (lease_agentic_jobs db limit ms now lease zone)
  perform db (complete id lease output effect now) =
      table_of (complete_agentic_job db id lease output effect now)
  perform db (fail id lease code error block now) =
      table_of (fail_agentic_job hash_number sanitize db id lease code error block now)
  perform db (sweep limit now zone) = table_of (reclaim_expired_agentic_jobs db limit now zone)

  -- the table after a sequence of calls
  unfoldable pub run : Db → List Call → Db
  run db [] = db
  run db (c ∷ cs) = run (rolled_back db (perform db c)) cs

  -- a call with other arguments changes nothing
  perform_invalid :
      (db : Db) (c : Call) → is_valid_call c ≡ false → rolled_back db (perform db c) ≡ db
  unfolding perform lease_agentic_job_by_id lease_agentic_jobs reclaim_expired_agentic_jobs
  perform_invalid db (enqueue spec) v =
      elim (Option-cases (read_job db (spec_job_id sha256_hex spec))) [
        | inr (j, held) ↦ rw (enqueue_known sha256_hex db spec held)
        | inl missing ↦ rw (enqueue_refused sha256_hex db spec v missing)
      ]
  perform_invalid db (lease_one id ms now lease) v = rw v
  perform_invalid db (lease_due limit ms now lease _) v = ground arith
  perform_invalid db (complete id lease output effect now) v = cc
  perform_invalid db (fail id lease code error block now) v = cc
  perform_invalid db (sweep limit now _) v = rw v

  module _ (Allowed : Instant → Option String → Type 0) where
    abbrev Moves : Db → Db → Type 0
    Moves = Evolves sha256_hex hash_number sanitize Allowed

    perform-Moves :
        (db : Db) (c : Call)
        → IsSound sha256_hex db
        → is_valid_call c ≡ true
        → Allowed (instant_of c) (worker_of c)
        → Returns (perform db c) (Moves db)
    unfolding perform lease_agentic_job_by_id lease_agentic_jobs reclaim_expired_agentic_jobs
    perform-Moves db (enqueue spec) s v p =
        table_of-Returns _ (Moves db)
          (enqueue_moves sha256_hex db spec s v hash_number sanitize Allowed)
    perform-Moves db (lease_one id ms now lease) s v p = rw v (
        table_of-Returns _ (Moves db) (
          lease_current-Moves sha256_hex hash_number sanitize Allowed db id now (now + ms) lease
            (read_job db id) s p refl))
    perform-Moves db (lease_due limit ms now lease zone) s v p =
        let (some_limit, some_ms) = (and-eq-true_iff (leb 1 limit) (leb 1 ms)).0 v in
        rw (some_limit, some_ms)
          (table_of-Returns _ (Moves db) (
            lease_rows-Moves sha256_hex hash_number sanitize Allowed db now (now + ms) lease
              (select_rows available_time (wants_lease zone now) limit db) s p))
    perform-Moves db (complete id lease output effect now) s v p =
        table_of-Returns _ (Moves db)
          (complete-Moves sha256_hex hash_number sanitize Allowed db id lease output effect now s p)
    perform-Moves db (fail id lease code error block now) s v p =
        table_of-Returns _ (Moves db)
          (fail-Moves sha256_hex hash_number sanitize Allowed db id lease code error block now s p)
    perform-Moves db (sweep limit now zone) s v p = rw v (
        table_of-Returns _ (Moves db) (
          reclaim_rows-Moves sha256_hex hash_number sanitize Allowed db (or_else limit 500) now
            no_sweep (select_rows updated_time (wants_reclaim zone now) (or_else limit 500) db) s
            p))

    after-Moves :
        (db : Db) (c : Call)
        → IsSound sha256_hex db
        → Allowed (instant_of c) (worker_of c)
        → Moves db (rolled_back db (perform db c))
    after-Moves db c s p = elim (Bool-cases (is_valid_call c)) [
      | inl valid ↦ returned (perform db c) (perform-Moves db c s valid p)
      | inr invalid ↦ rw (perform_invalid db c invalid) same
    ]
      where
        returned : (r : Fallible Db) → Returns r (Moves db) → Moves db (rolled_back db r)
        returned (ok db') e = e
        returned (threw x) e = same

    -- a sequence of allowed calls makes allowed moves only
    pub run-Moves :
        (db : Db) (cs : List Call)
        → IsSound sha256_hex db
        → All (λ c. Allowed (instant_of c) (worker_of c)) cs
        → Moves db (run db cs)
    unfolding run
    run-Moves db [] s p = same
    run-Moves db (c ∷ cs) s (p, ps) =
        let first = after-Moves db c s p in
        Evolves-trans sha256_hex hash_number sanitize first (
          run-Moves (rolled_back db (perform db c)) cs
            (Evolves-IsSound sha256_hex hash_number sanitize first s) ps)
