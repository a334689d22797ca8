-- ===== src/Retrieval/EmbeddingJobs/Runs.antt =====
-- Sequences of calls of packages/retrieval/src/embedding-jobs.ts: a lease excludes all others.
use carpe_os.Common.{
  ℕ, ◌+◌, ◌<◌, ◌≡◌, ◌≢◌, refl, ap, ◌∙◌, String, true, some, List, [], ◌∷◌, All, Fallible, ok, threw,
  str_eq, Bool-cases, inl, inr, leb, take, keep,
}
use carpe_os.Retrieval.EmbeddingJobs.Store.{
  EmbeddingJob, EmbeddingRecord, EmbeddingJobSpec, FailureKind, Db, get_job, leased, write_job,
  ensure_embedding_job, Host,
}
use carpe_os.Retrieval.EmbeddingJobs.Lease.{
  lease_rows, lease_embedding_jobs, order_rows, wants_lease,
}
use carpe_os.Retrieval.EmbeddingJobs.Finish.{
  ack_embedding_job, retry_embedding_job, block_embedding_job,
}
use carpe_os.Retrieval.EmbeddingJobs.Rows.{Holds, IsKeyed, write_job-Holds}
use carpe_os.Retrieval.EmbeddingJobs.Leases.{
  AfterPair, After-pair, ensure_found-Holds, lease_rows-Holds, finish_current-Holds,
  ack_found-Holds, retried_job-id,
}

pub data Call : Type 0 where
  ensure : EmbeddingJobSpec → Call
  lease : (limit lease_ms now : ℕ) (lease_id : String) → Call
  ack : (job_id lease_id : String) → EmbeddingRecord → (now : ℕ) → Call
  retry block : (job_id lease_id : String) → FailureKind → (error : String) (now : ℕ) → Call

-- the table after a call; one that throws leaves it as it was
abbrev pub table_after : {A : Type 0} → Db → Fallible (A × Db) → Db
table_after db (ok (a, db')) = db'
table_after db (threw e) = db

-- a call that is made before `expires`, or under another lease than `own`
abbrev pub IsForeign : ℕ → String → Call → Type 0
IsForeign expires own (ensure s) = Unit
IsForeign expires own (lease limit ms now l) = now < expires
IsForeign expires own (ack id l rec now) = l ≢ own
IsForeign expires own (retry id l kind error now) = l ≢ own
IsForeign expires own (block id l kind error now) = l ≢ own

module _ (host : Host) where
  abbrev perform : Db → Call → Db
  perform db (ensure s) = table_after db (ensure_embedding_job host db s)
  perform db (lease limit ms now l) = table_after db (lease_embedding_jobs host db limit ms now l)
  perform db (ack id l rec now) = table_after db (ack_embedding_job host db id l rec now)
  perform db (retry id l kind error now) =
      table_after db (retry_embedding_job host db id l kind error now)
  perform db (block id l kind error now) =
      table_after db (block_embedding_job host db id l kind error now)

  unfoldable pub run : Db → List Call → Db
  run db [] = db
  run db (c ∷ cs) = run (perform db c) cs

  module _ (k own : String) (expires : ℕ) (j : EmbeddingJob) (l : j.state ≡ leased)
      (n : j.lease_id ≡ some own) (t : j.lease_expires_at ≡ some expires) where
    settled :
        {A : Type 0} (db : Db) (m : Fallible (A × Db))
        → Holds k j db
        → AfterPair m (Holds k j)
        → Holds k j (table_after db m)
    settled db (ok (a, db')) h e = e
    settled db (threw x) h e = h

    perform-Holds :
        (db : Db) (c : Call) → IsForeign expires own c → Holds k j db → Holds k j (perform db c)
    unfolding ensure_embedding_job lease_embedding_jobs ack_embedding_job retry_embedding_job
        block_embedding_job
    perform-Holds db (ensure s) f h =
        settled db (ensure_embedding_job host db s) h
          (ensure_found-Holds host k own expires j l n t db s _ refl h)
    perform-Holds db (lease limit ms now m) f h = elim (Bool-cases (leb 1 limit)) [
      | inr no_limit ↦ rw no_limit h
      | inl limited ↦ elim (Bool-cases (leb 1 ms)) [
        | inr no_time ↦ rw (limited, no_time) h
        | inl timed ↦
            let rows = take limit (order_rows (keep (wants_lease now) db.jobs)) in
            rw (limited, timed)
              (settled db (lease_rows host db now (now + ms) m rows) h
                (lease_rows-Holds host k own expires j l n t db now (now + ms) m rows f h))
      ]
    ]
    perform-Holds db (ack id m rec now) f h =
        settled db (ack_embedding_job host db id m rec now) h (
          finish_current-Holds host k own expires j l n t db m id _ (get_job db id) f refl h
            (λ i other. ack_found-Holds host k own expires j l n t db id rec now i other h))
    perform-Holds db (retry id m kind error now) f h =
        settled db (retry_embedding_job host db id m kind error now) h (
          finish_current-Holds host k own expires j l n t db m id _ (get_job db id) f refl h
            (λ i other. After-pair (write_job host db _) true (Holds k j) (
              write_job-Holds host db _ k j
                (ap (λ q. str_eq q k)
                    (retried_job-id host k own expires j l n t kind error now id i)
                  ∙ other)
                h)))
    perform-Holds db (block id m kind error now) f h =
        settled db (block_embedding_job host db id m kind error now) h (
          finish_current-Holds host k own expires j l n t db m id _ (get_job db id) f refl h
            (λ i other.
              After-pair (write_job host db _) true (Holds k j)
                (write_job-Holds host db _ k j other h)))

    run-Holds :
        (db : Db) (cs : List Call)
        → All (IsForeign expires own) cs
        → Holds k j db
        → Holds k j (run db cs)
    unfolding run
    run-Holds db [] f h = h
    run-Holds db (c ∷ cs) (f, fs) h = run-Holds (perform db c) cs fs (perform-Holds db c f h)

  -- In a table whose rows stand under their jobs' identifiers, a leased job is changed by nobody but
  -- the worker who holds its lease, until the lease expires: calls that lease at earlier instants, or
  -- that acknowledge, retry or block under another lease, leave it as it is, whatever their order.
  pub run_leased_exclusive :
      (k own : String) (expires : ℕ) (j : EmbeddingJob) (db : Db) (cs : List Call)
      → j.state ≡ leased
      → j.lease_id ≡ some own
      → j.lease_expires_at ≡ some expires
      → IsKeyed db
      → get_job db k ≡ some j
      → All (IsForeign expires own) cs
      → get_job (run db cs) k ≡ some j
  run_leased_exclusive k own expires j db cs l n t s h f =
      (run-Holds k own expires j l n t db cs f (s, h)).1
