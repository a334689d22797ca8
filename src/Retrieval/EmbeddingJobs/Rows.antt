-- ===== src/Retrieval/EmbeddingJobs/Rows.antt =====
-- Writing a job of packages/retrieval/src/embedding-jobs.ts changes no other job.
use carpe_os.Common.{
  ◌≡◌, refl, sym, ap, ◌∙◌, String, false, Option, none, some, [], ◌∷◌, All, All-append, Fallible,
  ok, threw, str_eq, Bool-cases, Option-cases, inl, inr, arith,
}
use carpe_os.Common.Table.{find, find-key, find-modify_ne, find-append_some, All-find, All-modify}
use carpe_os.Retrieval.EmbeddingJobs.Store.{
  EmbeddingJob, JobRow, RecordRow, Db, row_key, row_of, json_of, get_job, put_row, any_clash,
  write_job, Host,
}
use carpe_os.Retrieval.EmbeddingJobs.Finish.{write_record, id_taken}

-- a row stands under the identifier of its job
abbrev pub IsKeyedRow : JobRow → Type 0
IsKeyedRow r = r.job_json.job_id ≡ r.job_id

abbrev pub IsKeyed : Db → Type 0
IsKeyed db = All IsKeyedRow db.jobs

-- the job under `k` is `j`
abbrev pub Holds : String → EmbeddingJob → Db → Type 0
Holds k j db = IsKeyed db × (get_job db k ≡ some j)

-- the table with the property, where the call did not throw
abbrev pub After : Fallible Db → (Db → Type 0) → Type 0
After (ok db) P = P db
After (threw e) P = Unit

get_job-row :
    (db : Db) (k : String) {j : EmbeddingJob}
    → get_job db k ≡ some j
    → (r : JobRow) × (find row_key k db.jobs ≡ some r) × (r.job_json ≡ j)
unfolding get_job
get_job-row db k {j} h = elim (Option-cases (find row_key k db.jobs)) [
  | inl missing ↦ ground arith
  | inr (r, found) ↦ (r, found, ground arith)
]

pub get_job-id :
    (db : Db) (k : String) {j : EmbeddingJob} → IsKeyed db → get_job db k ≡ some j → j.job_id ≡ k
get_job-id db k s h =
    let (r, found, e) = get_job-row db k h in
    sym (ap (λ (i : EmbeddingJob). i.job_id) e)
    ∙ All-find row_key IsKeyedRow k db.jobs s found
    ∙ find-key row_key k db.jobs found

put_row-Holds :
    (db : Db) (i : EmbeddingJob) (found : Option JobRow) (k : String) (j : EmbeddingJob)
    → str_eq i.job_id k ≡ false
    → Holds k j db
    → After (put_row found i db) (Holds k j)
unfolding get_job
put_row-Holds db i (some r) k j other (s, h) = (
  All-modify row_key IsKeyedRow i.job_id (λ _. row_of i) db.jobs s (λ q e. refl),
  ap json_of (find-modify_ne row_key i.job_id k (λ _. row_of i) db.jobs (λ q e. refl) other) ∙ h,
)
put_row-Holds db i none k j other (s, h) = elim (Bool-cases (any_clash i db.jobs)) [
  | inl clash ↦ rw clash tt
  | inr free ↦
      let (r, found, e) = get_job-row db k h in
      rw free (
        All-append IsKeyedRow db.jobs (row_of i ∷ []) s (refl, tt),
        ap json_of (find-append_some row_key k db.jobs (row_of i) found) ∙ ap some e,
      )
]

pub write_record-Holds :
    (r : RecordRow) (db : Db) (k : String) (j : EmbeddingJob)
    → Holds k j db
    → After (write_record r db) (Holds k j)
unfolding write_record get_job
write_record-Holds r db k j h = elim (Bool-cases (id_taken r db.records)) [
  | inl taken ↦ rw taken tt
  | inr free ↦ rw free h
]

module _ (host : Host) where
  pub write_job-Holds :
      (db : Db) (i : EmbeddingJob) (k : String) (j : EmbeddingJob)
      → str_eq i.job_id k ≡ false
      → Holds k j db
      → After (write_job host db i) (Holds k j)
  unfolding write_job
  write_job-Holds db i k j other h = elim (Bool-cases (host.conforms i)) [
    | inl valid ↦ rw valid (put_row-Holds db i (find row_key i.job_id db.jobs) k j other h)
    | inr invalid ↦ rw invalid tt
  ]
