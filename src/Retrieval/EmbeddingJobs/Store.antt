-- ===== src/Retrieval/EmbeddingJobs/Store.antt =====
-- packages/retrieval/src/embedding-jobs.ts: the two tables, reading and writing a job, and ensuring
-- that a chunk has one. An instant is in milliseconds since the epoch.
use carpe_os.Common.{
  ℕ, String, Bool, false, ◌&&◌, ◌||◌, Option, none, some, List, [], ◌∷◌, ◌++◌, str_eq,
  if◌then◌else◌, Fallible, ok, threw, ◌>>=◌,
}
use carpe_os.Common.Text.{◌<>◌}
use carpe_os.Common.Code.{text_take}
use carpe_os.Common.Table.{find, modify}

pub data Pooling : Type 0 where
  mean cls : Pooling

abbrev pub pooling_text : Pooling → String
pooling_text mean = "mean"
pooling_text cls = "cls"

pub data EmbeddingState : Type 0 where
  pending leased retryable_failed blocked embedded : EmbeddingState

-- EmbeddingFailureKind: the one kind that the code tests for, and the text of any other
pub data FailureKind : Type 0 where
  workers_ai_allocation_exhausted : FailureKind
  other_failure : String → FailureKind

pub record EmbeddingJob : Type 0 where
  pub job_id : String
  pub chunk_id : String
  pub embedding_model : String
  pub embedding_version : String
  pub pooling : Pooling
  pub state : EmbeddingState
  pub attempts : ℕ
  pub available_at : ℕ
  pub lease_id : Option String
  pub lease_expires_at : Option ℕ
  pub failure_kind : Option FailureKind
  pub retry_after : Option ℕ
  pub quota_reset_at : Option ℕ
  pub last_error : Option String
  pub created_at : ℕ
  pub updated_at : ℕ

pub record EmbeddingRecord : Type 0 where
  pub embedding_id : String
  pub chunk_id : String
  pub vector_ref : String
  pub vector_digest : String
  pub created_at : ℕ

pub record EmbeddingJobSpec : Type 0 where
  pub chunk_id : String
  pub embedding_model : String
  pub embedding_version : String
  pub pooling : Pooling
  pub now : ℕ

-- what the code calls that is not modelled: the platform's hash, and the number that six digits of it
-- denote; the removal of secrets from an error; and the two validators that a generator writes
pub record Host : Type 0 where
  pub sha256_hex : String → String
  pub hash_number : String → ℕ
  pub sanitize : String → String
  pub conforms : EmbeddingJob → Bool
  pub record_conforms : EmbeddingRecord → Bool

-- a row of `embedding_jobs`; the columns that no statement reads are those of its JSON
pub record JobRow : Type 0 where
  pub job_id : String
  pub state : EmbeddingState
  pub available_at : ℕ
  pub lease_expires_at : Option ℕ
  pub job_json : EmbeddingJob

-- a row of `embedding_records`
pub record RecordRow : Type 0 where
  pub embedding_id : String
  pub job_id : String
  pub chunk_id : String
  pub record_json : EmbeddingRecord

pub record Db : Type 0 where
  pub jobs : List JobRow
  pub records : List RecordRow

abbrev pub row_key : JobRow → String
row_key r = r.job_id

abbrev pub row_of : EmbeddingJob → JobRow
row_of j = record {
  job_id = j.job_id;
  state = j.state;
  available_at = j.available_at;
  lease_expires_at = j.lease_expires_at;
  job_json = j;
}

abbrev pub json_of : Option JobRow → Option EmbeddingJob
json_of none = none
json_of (some r) = some r.job_json

unfoldable pub get_job : Db → String → Option EmbeddingJob
get_job db id = json_of (find row_key id db.jobs)

-- UNIQUE(chunk_id, embedding_model, embedding_version, pooling)
unfoldable pub any_clash : EmbeddingJob → List JobRow → Bool
any_clash j [] = false
any_clash j (r ∷ rs) =
    (str_eq r.job_json.chunk_id j.chunk_id
      && str_eq r.job_json.embedding_model j.embedding_model
      && str_eq r.job_json.embedding_version j.embedding_version
      && str_eq (pooling_text r.job_json.pooling) (pooling_text j.pooling))
    || any_clash j rs

-- the statement of `writeJob`
abbrev pub put_row : Option JobRow → EmbeddingJob → Db → Fallible Db
put_row (some r) j db = ok (record db { jobs = modify row_key j.job_id (λ _. row_of j) db.jobs })
put_row none j db =
    if any_clash j db.jobs
    then threw "UNIQUE constraint failed"
    else ok (record db { jobs = db.jobs ++ row_of j ∷ [] })

abbrev pub without_lease : EmbeddingJob → EmbeddingJob
without_lease j = record j { lease_id = none; lease_expires_at = none }

module _ (host : Host) where
  unfoldable pub write_job : Db → EmbeddingJob → Fallible Db
  write_job db j =
      if host.conforms j
      then put_row (find row_key j.job_id db.jobs) j db
      else threw "invalid embedding job"

  unfoldable pub make_embedding_job_id : EmbeddingJobSpec → String
  make_embedding_job_id s =
      "embjob_"
      <> text_take 32 (
          host.sha256_hex (
            s.chunk_id
            <> ":"
            <> s.embedding_model
            <> ":"
            <> s.embedding_version
            <> ":"
            <> pooling_text s.pooling))

  abbrev pub new_job : EmbeddingJobSpec → EmbeddingJob
  new_job s = record {
    job_id = make_embedding_job_id s;
    chunk_id = s.chunk_id;
    embedding_model = s.embedding_model;
    embedding_version = s.embedding_version;
    pooling = s.pooling;
    state = pending;
    attempts = 0;
    available_at = s.now;
    lease_id = none;
    lease_expires_at = none;
    failure_kind = none;
    retry_after = none;
    quota_reset_at = none;
    last_error = none;
    created_at = s.now;
    updated_at = s.now;
  }

  abbrev pub ensure_found :
      Option EmbeddingJob → Db → EmbeddingJobSpec → Fallible (EmbeddingJob × Db)
  ensure_found (some j) db s = ok (j, db)
  ensure_found none db s = write_job db (new_job s) >>= λ db'. ok (new_job s, db')

  unfoldable pub ensure_embedding_job : Db → EmbeddingJobSpec → Fallible (EmbeddingJob × Db)
  ensure_embedding_job db s = ensure_found (get_job db (make_embedding_job_id s)) db s
