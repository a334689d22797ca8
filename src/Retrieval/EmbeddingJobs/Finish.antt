-- ===== src/Retrieval/EmbeddingJobs/Finish.antt =====
-- packages/retrieval/src/embedding-jobs.ts: a worker acknowledges, retries or blocks the job that it
-- holds.
use carpe_os.Common.{
  ℕ, ◌+◌, ◌-◌, ◌*◌, ◌/◌, ◌%◌, ◌^◌, min, String, Bool, true, false, not, ◌&&◌, ◌||◌, Option, none,
  some, List, [], ◌∷◌, str_eq, if◌then◌else◌, Fallible, ok, threw, ◌>>=◌, or_else,
}
use carpe_os.Retrieval.EmbeddingJobs.Store.{
  retryable_failed, blocked, embedded, FailureKind, workers_ai_allocation_exhausted, other_failure,
  EmbeddingJob, EmbeddingRecord, Host, RecordRow, Db, get_job, without_lease, write_job,
}
use carpe_os.Retrieval.EmbeddingJobs.Lease.{is_leased}

abbrev option_is : Option String → String → Bool
option_is none s = false
option_is (some t) s = str_eq t s

unfoldable pub holds_lease : EmbeddingJob → String → Bool
holds_lease j lease = is_leased j.state && option_is j.lease_id lease

-- INSERT … ON CONFLICT(chunk_id) DO UPDATE; another record's identifier is a primary key
unfoldable pub id_taken : RecordRow → List RecordRow → Bool
id_taken r [] = false
id_taken r (q ∷ qs) =
    (str_eq q.embedding_id r.embedding_id && not (str_eq q.chunk_id r.chunk_id)) || id_taken r qs

unfoldable pub upsert_record : RecordRow → List RecordRow → List RecordRow
upsert_record r [] = r ∷ []
upsert_record r (q ∷ qs) =
    let rest = upsert_record r qs in if str_eq q.chunk_id r.chunk_id then r ∷ qs else q ∷ rest

unfoldable pub write_record : RecordRow → Db → Fallible Db
write_record r db =
    if id_taken r db.records
    then threw "UNIQUE constraint failed"
    else ok (record db { records = upsert_record r db.records })

-- `Date.UTC(year, month, day + 1)`
abbrev pub next_utc_midnight : ℕ → ℕ
next_utc_midnight now = (now / 86400000 + 1) * 86400000

abbrev pub is_exhaustion : FailureKind → Bool
is_exhaustion workers_ai_allocation_exhausted = true
is_exhaustion (other_failure s) = false

abbrev pub with_quota_reset : FailureKind → EmbeddingJob → EmbeddingJob
with_quota_reset kind j =
    if is_exhaustion kind
    then record j { quota_reset_at = some (or_else j.retry_after j.available_at) }
    else j

module _ (host : Host) where
  -- what the three calls of a worker do with the job that they read: nothing, unless the worker holds
  -- its lease
  unfoldable pub finish_current :
      Db
      → String
      → (EmbeddingJob → Fallible (Bool × Db))
      → Option EmbeddingJob
      → Fallible (Bool × Db)
  finish_current db lease finish none = ok (false, db)
  finish_current db lease finish (some j) = if holds_lease j lease then finish j else ok (false, db)

  abbrev pub written_true : Fallible Db → Fallible (Bool × Db)
  written_true m = m >>= λ db. ok (true, db)

  abbrev pub ack_found : Db → String → EmbeddingRecord → ℕ → EmbeddingJob → Fallible (Bool × Db)
  ack_found db id rec now j =
      if not (host.record_conforms rec) || not (str_eq rec.chunk_id j.chunk_id)
      then ok (false, db)
      else (write_record
            (record {
              embedding_id = rec.embedding_id;
              job_id = id;
              chunk_id = rec.chunk_id;
              record_json = rec;
            })
            db
          >>= λ db'. written_true (
              write_job host db' (without_lease (record j { state = embedded; updated_at = now }))))

  unfoldable pub ack_embedding_job :
      Db → (job_id lease_id : String) → EmbeddingRecord → (now : ℕ) → Fallible (Bool × Db)
  ack_embedding_job db id lease rec now =
      finish_current db lease (ack_found db id rec now) (get_job db id)

  unfoldable pub bounded_backoff : (now attempts : ℕ) (seed : String) → ℕ
  bounded_backoff now attempts seed =
      now + min 3600000 (1000 * 2 ^ min 10 (attempts - 1)) + host.hash_number seed % 1000

  abbrev pub retry_at : FailureKind → ℕ → EmbeddingJob → String → ℕ
  retry_at kind now j id =
      if is_exhaustion kind then next_utc_midnight now else bounded_backoff now j.attempts id

  abbrev pub retried_job : FailureKind → String → ℕ → String → EmbeddingJob → EmbeddingJob
  retried_job kind error now id j = without_lease (
      with_quota_reset kind (record j {
        state = retryable_failed;
        failure_kind = some kind;
        retry_after = some (retry_at kind now j id);
        last_error = some (host.sanitize error);
        available_at = retry_at kind now j id;
        updated_at = now;
      }))

  unfoldable pub retry_embedding_job :
      Db
      → (job_id lease_id : String) → FailureKind
      → (error : String) (now : ℕ) → Fallible (Bool × Db)
  retry_embedding_job db id lease kind error now =
      finish_current db lease
        (λ j. written_true (write_job host db (retried_job kind error now id j))) (get_job db id)

  abbrev pub blocked_job : FailureKind → String → ℕ → EmbeddingJob → EmbeddingJob
  blocked_job kind error now j = without_lease (record j {
    state = blocked;
    failure_kind = some kind;
    last_error = some (host.sanitize error);
    updated_at = now;
  })

  unfoldable pub block_embedding_job :
      Db
      → (job_id lease_id : String) → FailureKind
      → (error : String) (now : ℕ) → Fallible (Bool × Db)
  block_embedding_job db id lease kind error now =
      finish_current db lease (λ j. written_true (write_job host db (blocked_job kind error now j)))
        (get_job db id)
