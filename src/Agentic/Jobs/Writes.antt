-- ===== src/Agentic/Jobs/Writes.antt =====
-- Writing a job that moved legally, in packages/agentic/src/jobs.ts: the write succeeds, changes
-- that job alone, and keeps the table sound.
use carpe_os.Common.{
  ℕ, ◌≡◌, sym, ap, String, Option, some, [], ◌∷◌, ◌++◌, arith, ok, eq_iff, str_eq, Bool-cases, inl,
  inr, if◌then◌else◌, ◌∙◌, subst, Option-cases,
}
use carpe_os.Common.Table.{
  find, modify, find-key, find-modify_self, find-modify_ne, find-append_some, All-find, All-modify,
}
use carpe_os.Agentic.Types.{AgenticJob, Instant}
use carpe_os.Agentic.Jobs.Store.{
  JobRow, Db, row_key, row_of, update_row, upsert, write_job, read_job,
}
use carpe_os.Agentic.Jobs.Steps.{Step, Step-SameStage}
use carpe_os.Agentic.Jobs.Invariant.{IsSoundJob, IsSoundRow, IsSound, Step-IsSoundJob}

-- a job that was read stands in a row under its identifier
pub read_job-row :
    (db : Db) (id : String) {j : AgenticJob}
    → read_job db id ≡ some j
    → (r : JobRow) × (find row_key id db ≡ some r) × (r.job_json ≡ j)
unfolding read_job
read_job-row db id {j} h = elim (Option-cases (find row_key id db)) [
  | inl missing ↦ ground arith
  | inr (r, found) ↦ (r, found, ground arith)
]

pub read_job_of_find :
    (db : Db) (k : String) {r : JobRow}
    → find row_key k db ≡ some r
    → read_job db k ≡ some r.job_json
unfolding read_job
read_job_of_find db k h = ground arith

read_job_congr :
    (db db' : Db) (k : String)
    → find row_key k db' ≡ find row_key k db
    → read_job db' k ≡ read_job db k
unfolding read_job
read_job_congr db db' k h = rw (h, read_job)

upsert_held :
    (db : Db) (j : AgenticJob) {r : JobRow}
    → find row_key j.job_id db ≡ some r
    → upsert j db ≡ ok (modify row_key j.job_id (update_row j) db)
unfolding upsert
upsert_held db j h = rw (h, upsert)

module _ (sha256_hex : String → String) where
  pub read_job-IsSoundJob :
      (db : Db) (id : String) {j : AgenticJob}
      → IsSound sha256_hex db
      → read_job db id ≡ some j
      → IsSoundJob sha256_hex j
  read_job-IsSoundJob db id {j} s h =
      let (r, found, e) = read_job-row db id h in
      subst (IsSoundJob sha256_hex) e (All-find row_key (IsSoundRow sha256_hex) id db s found).job

  -- in a sound table the job that is read under an identifier bears it
  pub read_job-id :
      (db : Db) (id : String) {j : AgenticJob}
      → IsSound sha256_hex db
      → read_job db id ≡ some j
      → j.job_id ≡ id
  read_job-id db id {j} s h =
      let (r, found, e) = read_job-row db id h in
      let row = All-find row_key (IsSoundRow sha256_hex) id db s found in
      sym (ap (λ (k : AgenticJob). k.job_id) e)
      ∙ sym (ap (λ (q : JobRow). q.job_id) row.columns)
      ∙ find-key row_key id db found

-- a new row hides no job that was read before
pub read_job-append :
    (db : Db) (r : JobRow) (k : String) {j : AgenticJob}
    → read_job db k ≡ some j
    → read_job (db ++ r ∷ []) k ≡ some j
read_job-append db r k h =
    let (q, found, e) = read_job-row db k h in
    read_job_of_find (db ++ r ∷ []) k (find-append_some row_key k db r found) ∙ ap some e

-- the table after job `id` was written
abbrev pub written : Db → String → AgenticJob → Db
written db id j = modify row_key id (update_row j) db

module _ (hash_number : String → ℕ) (sanitize : String → String) where
  module _ {now : Instant} {by : Option String} (db : Db) (id : String) {j j' : AgenticJob}
      (moved : Step hash_number sanitize now by j j') (held : read_job db id ≡ some j) where
    -- the moved job is read under its identifier, and every other job as before
    pub read_job-written :
        (k : String)
        → read_job (written db id j') k ≡ (if str_eq id k then some j' else read_job db k)
    read_job-written k =
        let (r, found, e) = read_job-row db id held in
        elim (Bool-cases (str_eq id k)) [
          | inl same ↦
              rw (same, ← (eq_iff id k).0 same)
                (read_job_of_find (written db id j') id (
                  find-modify_self row_key id (update_row j') db (find-key row_key id db found)
                    found))
          | inr other ↦ rw other (
              read_job_congr db (written db id j') k
                (find-modify_ne row_key id k (update_row j') db (λ q h. h) other))
        ]

    module _ (sha256_hex : String → String) (sound : IsSound sha256_hex db) where
      update_row-IsSoundRow :
          (r : JobRow) → find row_key id db ≡ some r → IsSoundRow sha256_hex (update_row j' r)
      update_row-IsSoundRow r found =
          let row = All-find row_key (IsSoundRow sha256_hex) id db sound found in
          let same = Step-SameStage hash_number sanitize moved in
          let at_row : some r.job_json ≡ some j = sym (read_job_of_find db id found) ∙ held in
          let columns : r ≡ row_of r.job_json = row.columns in
          record {
            columns = ground arith;
            job =
                Step-IsSoundJob sha256_hex hash_number sanitize moved
                  (read_job-IsSoundJob sha256_hex db id sound held);
          }

      pub written-IsSound : IsSound sha256_hex (written db id j')
      written-IsSound =
          All-modify row_key (IsSoundRow sha256_hex) id (update_row j') db sound
            update_row-IsSoundRow

      -- the write does not throw
      pub write_job-moved : write_job db j' ≡ ok (written db id j')
      unfolding write_job
      write_job-moved =
          let (r, found, e) = read_job-row db id held in
          let after =
            Step-IsSoundJob sha256_hex hash_number sanitize moved
              (read_job-IsSoundJob sha256_hex db id sound held) in
          let named =
            (Step-SameStage hash_number sanitize moved).job_id
            ∙ read_job-id sha256_hex db id sound held in
          rw after.asserted (
            upsert_held db j' (ap (λ k. find row_key k db) named ∙ found)
            ∙ ap (λ k. ok (modify row_key k (update_row j') db)) named)
