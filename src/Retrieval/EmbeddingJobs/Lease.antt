-- ===== src/Retrieval/EmbeddingJobs/Lease.antt =====
-- packages/retrieval/src/embedding-jobs.ts: leasing the jobs that are due.
use carpe_os.Common.{
  ℕ, ◌+◌, String, Bool, true, false, not, ◌&&◌, ◌||◌, Option, none, some, List, [], ◌∷◌, ◌++◌, leb,
  ltb, ◌==◌, if◌then◌else◌, take, keep, Fallible, ok, guard, ◌>>=◌, ◌>>◌,
}
use carpe_os.Common.Text.{text_lt}
use carpe_os.Retrieval.EmbeddingJobs.Store.{
  EmbeddingState, pending, leased, retryable_failed, EmbeddingJob, Host, JobRow, Db, get_job,
  write_job,
}

pub record LeasedEmbeddingJob : Type 0 where
  pub lease_id : String
  pub lease_expires_at : ℕ
  pub job : EmbeddingJob

abbrev pub is_open : EmbeddingState → Bool
is_open pending = true
is_open retryable_failed = true
is_open leased = true
is_open _ = false

abbrev pub is_leased : EmbeddingState → Bool
is_leased leased = true
is_leased _ = false

-- `lease_expires_at <= ?` in SQL, where NULL is not
abbrev pub ended : Option ℕ → ℕ → Bool
ended none now = false
ended (some t) now = leb t now

-- `lease_expires_at !== undefined && lease_expires_at > now`
abbrev pub running : Option ℕ → ℕ → Bool
running none now = false
running (some t) now = ltb now t

abbrev pub wants_lease : ℕ → JobRow → Bool
wants_lease now r =
    is_open r.state
    && leb r.available_at now
    && (not (is_leased r.state) || ended r.lease_expires_at now)

unfoldable pub insert_row : JobRow → List JobRow → List JobRow
insert_row r [] = r ∷ []
insert_row r (q ∷ qs) =
    let rest = insert_row r qs in
    if ltb q.available_at r.available_at
      || (q.available_at == r.available_at && text_lt q.job_id r.job_id)
    then q ∷ rest
    else r ∷ q ∷ qs

-- ORDER BY available_at ASC, job_id ASC
unfoldable pub order_rows : List JobRow → List JobRow
order_rows [] = []
order_rows (r ∷ rs) = insert_row r (order_rows rs)

unfoldable pub is_leaseable : EmbeddingJob → ℕ → Bool
is_leaseable j now =
    is_open j.state
    && leb j.available_at now
    && not (is_leased j.state && running j.lease_expires_at now)

abbrev pub leased_job : String → ℕ → ℕ → EmbeddingJob → EmbeddingJob
leased_job lease expires now j = record j {
  state = leased;
  attempts = j.attempts + 1;
  lease_id = some lease;
  lease_expires_at = some expires;
  updated_at = now;
}

module _ (host : Host) where
  -- one turn of the loop over the rows that were selected
  unfoldable pub lease_current :
      Db → ℕ → ℕ → String → Option EmbeddingJob → Fallible (List LeasedEmbeddingJob × Db)
  lease_current db now expires lease none = ok ([], db)
  lease_current db now expires lease (some j) =
      if is_leaseable j now
      then (write_job host db (leased_job lease expires now j) >>= λ db'. ok (
        record {
          lease_id = lease;
          lease_expires_at = expires;
          job = leased_job lease expires now j;
        }
            ∷ [],
        db',
      ))
      else ok ([], db)

  unfoldable pub lease_rows :
      Db → ℕ → ℕ → String → List JobRow → Fallible (List LeasedEmbeddingJob × Db)
  lease_rows db now expires lease [] = ok ([], db)
  lease_rows db now expires lease (r ∷ rs) =
      lease_current db now expires lease (get_job db r.job_id) >>= λ (first, db').
      lease_rows db' now expires lease rs >>= λ (others, db''). ok (first ++ others, db'')

  unfoldable pub lease_embedding_jobs :
      Db → (limit lease_ms now : ℕ) (lease_id : String) → Fallible (List LeasedEmbeddingJob × Db)
  lease_embedding_jobs db limit lease_ms now lease = do
    guard (leb 1 limit) "lease limit must be a positive integer"
    guard (leb 1 lease_ms) "leaseMs must be a positive integer"
    lease_rows db now (now + lease_ms) lease
        (take limit (order_rows (keep (wants_lease now) db.jobs)))
