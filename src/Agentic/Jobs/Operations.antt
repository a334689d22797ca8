-- ===== src/Agentic/Jobs/Operations.antt =====
-- Every call of packages/agentic/src/jobs.ts that writes makes legal moves only, and returns.
use carpe_os.Common.{
  ℕ, ◌≡◌, refl, String, Bool, true, ◌&&◌, ◌||◌, Option, none, some, List, [], ◌∷◌, arith, ok, threw,
  Fallible, ◌>>=◌, Bool-cases, inl, inr, leb,
}
use carpe_os.Agentic.Types.{AgenticJob, CanonicalEffect, Instant}
use carpe_os.Agentic.Jobs.Store.{JobRow, Db, read_job, write_job}
use carpe_os.Agentic.Jobs.Query.{is_pending}
use carpe_os.Agentic.Jobs.Lease.{is_leaseable, is_exhausted, lease_current, lease_rows}
use carpe_os.Agentic.Jobs.Finish.{
  holds_lease, finish_current, complete_agentic_job, fail_agentic_job, completed_job, failed_job,
}
use carpe_os.Agentic.Jobs.Reclaim.{Sweep, has_expired, reclaim_current, reclaim_rows}
use carpe_os.Agentic.Jobs.Steps.{Step, grant, give_up, reclaim, complete, fail}
use carpe_os.Agentic.Jobs.Invariant.{IsSound}
use carpe_os.Agentic.Jobs.Writes.{write_job-moved}
use carpe_os.Agentic.Jobs.History.{Evolves, same, move, Evolves-trans, Evolves-IsSound, Succeeds}

module _ (sha256_hex : String → String) (hash_number : String → ℕ) (sanitize : String → String)
    (Allowed : Instant → Option String → Type 0) where
  abbrev Moves : Db → Db → Type 0
  Moves = Evolves sha256_hex hash_number sanitize Allowed

  Succeeds-write :
      {A : Type 0} (a : A) (db : Db) (id : String) {now : Instant} {by : Option String}
      {j j' : AgenticJob}
      → IsSound sha256_hex db
      → Allowed now by
      → read_job db id ≡ some j
      → Step hash_number sanitize now by j j'
      → Succeeds (write_job db j' >>= λ db'. ok (a, db')) (Moves db)
  Succeeds-write a db id s p held st =
      rw (write_job-moved hash_number sanitize db id st held sha256_hex s) (move id p held st same)

  Succeeds-trans :
      {B : Type 0} (db db' : Db) (r : Fallible (B × Db))
      → Moves db db'
      → Succeeds r (Moves db')
      → Succeeds r (Moves db)
  Succeeds-trans db db' (ok (b, db'')) e e' = Evolves-trans sha256_hex hash_number sanitize e e'
  Succeeds-trans db db' (threw x) e e' = e'

  -- a further call after one that succeeded
  Succeeds-bind :
      {A B : Type 0} (db : Db) (m : Fallible (A × Db)) (f : A × Db → Fallible (B × Db))
      → IsSound sha256_hex db
      → Succeeds m (Moves db)
      → ((a : A) (db' : Db) → IsSound sha256_hex db' → Succeeds (f (a, db')) (Moves db'))
      → Succeeds (m >>= f) (Moves db)
  Succeeds-bind db (ok (a, db')) f s e k =
      Succeeds-trans db db' (f (a, db')) e
        (k a db' (Evolves-IsSound sha256_hex hash_number sanitize e s))
  Succeeds-bind db (threw x) f s e k = e

  pub lease_current-Moves :
      (db : Db) (id : String) (now expires : Instant) (lease : String) (found : Option AgenticJob)
      → IsSound sha256_hex db
      → Allowed now none
      → read_job db id ≡ found
      → Succeeds (lease_current db now expires lease found) (Moves db)
  unfolding lease_current
  lease_current-Moves db id now expires lease none s p held = same
  lease_current-Moves db id now expires lease (some j) s p held =
      elim (Bool-cases (is_leaseable j now)) [
        | inr closed ↦ rw closed same
        | inl opened ↦ elim (Bool-cases (is_exhausted j)) [
          | inl spent ↦
              rw (opened, spent) (Succeeds-write none db id s p held (give_up _ (rw opened) spent))
          | inr fresh ↦
              rw (opened, fresh)
                (Succeeds-write (some _) db id s p held (grant lease expires opened fresh))
        ]
      ]

  pub lease_rows-Moves :
      (db : Db) (now expires : Instant) (lease : String) (rows : List JobRow)
      → IsSound sha256_hex db
      → Allowed now none
      → Succeeds (lease_rows db now expires lease rows) (Moves db)
  unfolding lease_rows
  lease_rows-Moves db now expires lease [] s p = same
  lease_rows-Moves db now expires lease (r ∷ rs) s p =
      Succeeds-bind db (lease_current db now expires lease (read_job db r.job_id)) _ s
        (lease_current-Moves db r.job_id now expires lease (read_job db r.job_id) s p refl)
        λ first db' s'.
          Succeeds-bind db' (lease_rows db' now expires lease rs) _ s'
            (lease_rows-Moves db' now expires lease rs s' p) (λ others db'' s''. same)

  pub finish_current-Moves :
      (db : Db) (id lease : String) (finish : AgenticJob → AgenticJob) {now : Instant}
      (found : Option AgenticJob)
      → IsSound sha256_hex db
      → Allowed now (some lease)
      → ((j : AgenticJob)
          → holds_lease j lease ≡ true
          → Step hash_number sanitize now (some lease) j (finish j))
      → read_job db id ≡ found
      → Succeeds (finish_current db lease finish found) (Moves db)
  unfolding finish_current
  finish_current-Moves db id lease finish none s p legal held = same
  finish_current-Moves db id lease finish (some j) s p legal held =
      elim (Bool-cases (holds_lease j lease)) [
        | inl mine ↦ rw mine (Succeeds-write true db id s p held (legal j mine))
        | inr foreign ↦ rw foreign same
      ]

  pub complete-Moves :
      (db : Db) (id lease : String) (output : Option String) (effect : Option CanonicalEffect)
      (now : Instant)
      → IsSound sha256_hex db
      → Allowed now (some lease)
      → Succeeds (complete_agentic_job db id lease output effect now) (Moves db)
  unfolding complete_agentic_job
  complete-Moves db id lease output effect now s p =
      finish_current-Moves db id lease (completed_job output effect now) (read_job db id) s p
        (λ j mine. complete lease output effect mine) refl

  pub fail-Moves :
      (db : Db) (id lease code : String) (error : Option String) (block : Bool) (now : Instant)
      → IsSound sha256_hex db
      → Allowed now (some lease)
      → Succeeds (fail_agentic_job hash_number sanitize db id lease code error block now) (Moves db)
  unfolding fail_agentic_job
  fail-Moves db id lease code error block now s p =
      finish_current-Moves db id lease (failed_job hash_number sanitize code error block now)
        (read_job db id) s p (λ j mine. fail lease code error block mine) refl

  pub reclaim_current-Moves :
      (db : Db) (id : String) (now : Instant) (sweep : Sweep) (found : Option AgenticJob)
      → IsSound sha256_hex db
      → Allowed now none
      → read_job db id ≡ found
      → Succeeds (reclaim_current db now sweep found) (Moves db)
  unfolding reclaim_current
  reclaim_current-Moves db id now sweep none s p held = same
  reclaim_current-Moves db id now sweep (some j) s p held =
      elim (Bool-cases (has_expired j now || is_pending j.state && is_exhausted j)) [
        | inr idle ↦ rw idle same
        | inl due ↦ elim (Bool-cases (is_exhausted j)) [
          | inl spent ↦
              rw (due, spent) (Succeeds-write _ db id s p held (give_up _ (ground arith) spent))
          | inr fresh ↦
              rw (due, fresh) (Succeeds-write _ db id s p held (reclaim (ground arith) fresh))
        ]
      ]

  pub reclaim_rows-Moves :
      (db : Db) (limit : ℕ) (now : Instant) (sweep : Sweep) (rows : List JobRow)
      → IsSound sha256_hex db
      → Allowed now none
      → Succeeds (reclaim_rows db limit now sweep rows) (Moves db)
  unfolding reclaim_rows
  reclaim_rows-Moves db limit now sweep [] s p = same
  reclaim_rows-Moves db limit now sweep (r ∷ rs) s p =
      elim (Bool-cases (leb limit sweep.processed)) [
        | inl full ↦ rw full same
        | inr room ↦ rw room (
            Succeeds-bind db (reclaim_current db now sweep (read_job db r.job_id)) _ s
              (reclaim_current-Moves db r.job_id now sweep (read_job db r.job_id) s p refl)
              λ sweep' db' s'. reclaim_rows-Moves db' limit now sweep' rs s' p)
      ]
