-- ===== src/Retrieval/EmbeddingJobs/Leases.antt =====
-- packages/retrieval/src/embedding-jobs.ts: no step of a foreign call touches a job under a running
-- lease.
use carpe_os.Common.{
  ℕ, ◌<◌, ◌≡◌, ◌≢◌, refl, sym, ap, ◌∙◌, String, Bool, true, false, not, ◌||◌, Option, none, some,
  List, [], ◌∷◌, Fallible, ok, threw, ◌>>=◌, str_eq, eq_iff, Bool-cases, inl, inr, arith,
}
use carpe_os.Retrieval.EmbeddingJobs.Store.{
  EmbeddingJob, EmbeddingRecord, EmbeddingJobSpec, FailureKind, JobRow, Db, get_job, leased,
  write_job, new_job, make_embedding_job_id, ensure_found, Host,
}
use carpe_os.Retrieval.EmbeddingJobs.Lease.{leased_job, is_leaseable, lease_current, lease_rows}
use carpe_os.Retrieval.EmbeddingJobs.Finish.{
  holds_lease, write_record, finish_current, ack_found, retried_job, is_exhaustion,
}
use carpe_os.Retrieval.EmbeddingJobs.Rows.{
  Holds, After, get_job-id, write_job-Holds, write_record-Holds,
}

abbrev pub AfterPair : {A : Type 0} → Fallible (A × Db) → (Db → Type 0) → Type 0
AfterPair (ok (a, db)) P = P db
AfterPair (threw e) P = Unit

pub After-pair :
    {A : Type 0} (m : Fallible Db) (a : A) (P : Db → Type 0)
    → After m P
    → AfterPair (m >>= λ db. ok (a, db)) P
After-pair (ok db) a P h = h
After-pair (threw e) a P h = tt

AfterPair-bind :
    {A B : Type 0} (m : Fallible (A × Db)) (f : A × Db → Fallible (B × Db)) (P : Db → Type 0)
    → AfterPair m P
    → ((a : A) (db : Db) → P db → AfterPair (f (a, db)) P)
    → AfterPair (m >>= f) P
AfterPair-bind (ok (a, db)) f P h k = k a db h
AfterPair-bind (threw e) f P h k = tt

After-bind :
    {B : Type 0} (m : Fallible Db) (f : Db → Fallible (B × Db)) (P : Db → Type 0)
    → After m P
    → ((db : Db) → P db → AfterPair (f db) P)
    → AfterPair (m >>= f) P
After-bind (ok db) f P h k = k db h
After-bind (threw e) f P h k = tt

-- two jobs that are read under one identifier are the same
held_same :
    (db : Db) (k id : String) (i j : EmbeddingJob)
    → Holds k j db
    → get_job db id ≡ some i
    → str_eq i.job_id k ≡ true
    → i ≡ j
held_same db k id i j (s, h) held hit =
    let at_k : id ≡ k = sym (get_job-id db id s held) ∙ (eq_iff i.job_id k).0 hit in
    let both : some i ≡ some j = sym held ∙ ap (get_job db) at_k ∙ h in ground (arith, both)

module _ (host : Host) where
  module _ (k own : String) (expires : ℕ) (j : EmbeddingJob) (l : j.state ≡ leased)
      (n : j.lease_id ≡ some own) (t : j.lease_expires_at ≡ some expires) where
    pub ensure_found-Holds :
        (db : Db) (s : EmbeddingJobSpec) (found : Option EmbeddingJob)
        → get_job db (make_embedding_job_id host s) ≡ found
        → Holds k j db
        → AfterPair (ensure_found host found db s) (Holds k j)
    ensure_found-Holds db s (some i) e h = h
    ensure_found-Holds db s none e h =
        let id = make_embedding_job_id host s in
        let new = new_job host s in
        elim (Bool-cases (str_eq id k)) [
          | inl hit ↦
              let both : none ≡ some j = sym e ∙ ap (get_job db) ((eq_iff id k).0 hit) ∙ h.1 in
              ground (arith, both)
          | inr other ↦
              After-pair (write_job host db new) new (Holds k j)
                (write_job-Holds host db new k j other h)
        ]

    pub closed : (now : ℕ) → now < expires → is_leaseable j now ≡ false
    unfolding is_leaseable
    closed now f = ground (arith, l, t, f)

    pub not_held : (m : String) → m ≢ own → holds_lease j m ≡ false
    unfolding holds_lease
    not_held m f = ground (arith, l, n, f, eq_iff own m)

    -- a job that may be leased before `expires` is not the leased one
    pub leaseable_elsewhere :
        (db : Db) (now : ℕ) (id : String) (i : EmbeddingJob)
        → now < expires
        → get_job db id ≡ some i
        → Holds k j db
        → is_leaseable i now ≡ true
        → str_eq i.job_id k ≡ false
    leaseable_elsewhere db now id i f e h free = elim (Bool-cases (str_eq i.job_id k)) [
      | inr other ↦ other
      | inl hit ↦
          let both : true ≡ false =
            sym free
            ∙ ap (λ q. is_leaseable q now) (held_same db k id i j h e hit)
            ∙ closed now f in
          ground (arith, both)
    ]

    pub held_elsewhere :
        (db : Db) (m id : String) (i : EmbeddingJob)
        → m ≢ own
        → get_job db id ≡ some i
        → Holds k j db
        → holds_lease i m ≡ true
        → str_eq i.job_id k ≡ false
    held_elsewhere db m id i f e h mine = elim (Bool-cases (str_eq i.job_id k)) [
      | inr other ↦ other
      | inl hit ↦
          let both : true ≡ false =
            sym mine ∙ ap (λ q. holds_lease q m) (held_same db k id i j h e hit) ∙ not_held m f in
          ground (arith, both)
    ]

    pub lease_current-Holds :
        (db : Db) (now until : ℕ) (m id : String) (found : Option EmbeddingJob)
        → now < expires
        → get_job db id ≡ found
        → Holds k j db
        → AfterPair (lease_current host db now until m found) (Holds k j)
    unfolding lease_current
    lease_current-Holds db now until m id none f e h = h
    lease_current-Holds db now until m id (some i) f e h = elim (Bool-cases (is_leaseable i now)) [
      | inr shut ↦ rw shut h
      | inl free ↦ rw free (
          After-pair (write_job host db (leased_job m until now i)) _ (Holds k j) (
            write_job-Holds host db (leased_job m until now i) k j
              (leaseable_elsewhere db now id i f e h free) h))
    ]

    pub lease_rows-Holds :
        (db : Db) (now until : ℕ) (m : String) (rows : List JobRow)
        → now < expires
        → Holds k j db
        → AfterPair (lease_rows host db now until m rows) (Holds k j)
    unfolding lease_rows
    lease_rows-Holds db now until m [] f h = h
    lease_rows-Holds db now until m (r ∷ rs) f h =
        AfterPair-bind (lease_current host db now until m (get_job db r.job_id)) _ (Holds k j)
          (lease_current-Holds db now until m r.job_id (get_job db r.job_id) f refl h)
          (λ first db' h'.
            AfterPair-bind (lease_rows host db' now until m rs) _ (Holds k j)
              (lease_rows-Holds db' now until m rs f h') (λ others db'' h''. h''))

    pub finish_current-Holds :
        (db : Db) (m id : String) (finish : EmbeddingJob → Fallible (Bool × Db))
        (found : Option EmbeddingJob)
        → m ≢ own
        → get_job db id ≡ found
        → Holds k j db
        → ((i : EmbeddingJob) → str_eq i.job_id k ≡ false → AfterPair (finish i) (Holds k j))
        → AfterPair (finish_current host db m finish found) (Holds k j)
    unfolding finish_current
    finish_current-Holds db m id finish none f e h next = h
    finish_current-Holds db m id finish (some i) f e h next = elim (Bool-cases (holds_lease i m)) [
      | inr foreign ↦ rw foreign h
      | inl mine ↦ rw mine (next i (held_elsewhere db m id i f e h mine))
    ]

    pub retried_job-id :
        (kind : FailureKind) (error : String) (now : ℕ) (id : String) (i : EmbeddingJob)
        → (retried_job host kind error now id i).job_id ≡ i.job_id
    retried_job-id kind error now id i = elim (Bool-cases (is_exhaustion kind)) [
      | inl quota ↦ rw quota refl
      | inr other ↦ rw other refl
    ]

    pub ack_found-Holds :
        (db : Db) (id : String) (rec : EmbeddingRecord) (now : ℕ) (i : EmbeddingJob)
        → str_eq i.job_id k ≡ false
        → Holds k j db
        → AfterPair (ack_found host db id rec now i) (Holds k j)
    ack_found-Holds db id rec now i other h =
        elim (Bool-cases (not (host.record_conforms rec) || not (str_eq rec.chunk_id i.chunk_id))) [
          | inl refused ↦ rw refused h
          | inr fine ↦ rw fine (
              After-bind (write_record _ db) _ (Holds k j) (write_record-Holds _ db k j h)
                (λ db' h'.
                  After-pair (write_job host db' _) true (Holds k j)
                    (write_job-Holds host db' _ k j other h')))
        ]
