-- ===== src/Agentic/Jobs/Granting.antt =====
-- What the lease calls of packages/agentic/src/jobs.ts hand out, and who may finish.
use carpe_os.Common.{
  ℕ, suc, ◌+◌, ◌≤◌, ◌<◌, ◌≡◌, refl, ◌∙◌, sym, String, true, false, Option, none, some, List, [],
  ◌∷◌, arith, All, ok, threw, Fallible, ◌>>=◌, Bool-cases, inl, inr, leb, length, str_eq, eq_iff,
  eq_refl, length-take,
}
use carpe_os.Agentic.Types.{AgenticJob, CanonicalEffect, Instant, leased}
use carpe_os.Agentic.Jobs.Store.{JobRow, Db, read_job}
use carpe_os.Agentic.Jobs.Query.{wants_lease, available_time, select_rows}
use carpe_os.Agentic.Jobs.Lease.{
  LeasedAgenticJob, is_leaseable, is_exhausted, lease_current, lease_rows, push_lease, leased_job,
  exhausted_job, lease_agentic_job_by_id, lease_agentic_jobs,
}
use carpe_os.Agentic.Jobs.Finish.{holds_lease, finish_current, complete_agentic_job, completed_job}
use carpe_os.Agentic.Jobs.Steps.{Step, grant, give_up, complete}
use carpe_os.Agentic.Jobs.Invariant.{IsSound}
use carpe_os.Agentic.Jobs.Writes.{written, write_job-moved, read_job-written, read_job-id}
use carpe_os.Agentic.Jobs.History.{Succeeds, Evolves, Evolves-IsSound, Evolves-frozen}
use carpe_os.Agentic.Jobs.Operations.{lease_current-Moves, lease_rows-Moves}
use carpe_os.Agentic.Jobs.Guarantees.{IsForeign, leased_stuck}

-- a call that succeeded, with its answer
abbrev pub Gives : {A : Type 0} → Fallible (A × Db) → (A → Db → Type 0) → Type 0
Gives (ok (a, db)) P = P a db
Gives (threw e) P = ⊥

module _ {A : Type 0} where
  pub Gives-and :
      (r : Fallible (A × Db)) (P : Db → Type 0) (Q : A → Db → Type 0)
      → Succeeds r P
      → Gives r Q
      → Gives r (λ a db. P db × Q a db)
  Gives-and (ok (a, db)) P Q p q = (p, q)
  Gives-and (threw e) P Q p q = p

  pub Gives-map :
      (r : Fallible (A × Db)) (P Q : A → Db → Type 0)
      → Gives r P
      → ((a : A) (db : Db) → P a db → Q a db)
      → Gives r Q
  Gives-map (ok (a, db)) P Q p f = f a db p
  Gives-map (threw e) P Q p f = p

module _ {A B : Type 0} where
  pub Gives-bind :
      (r : Fallible (A × Db)) (f : A × Db → Fallible (B × Db)) (P : A → Db → Type 0)
      (Q : B → Db → Type 0)
      → Gives r P
      → ((a : A) (db : Db) → P a db → Gives (f (a, db)) Q)
      → Gives (r >>= f) Q
  Gives-bind (ok (a, db)) f P Q p k = k a db p
  Gives-bind (threw e) f P Q p k = p

-- what a worker may rely on of a lease that a call at `now` hands out until `expires`
pub record IsGranted (now expires : Instant) (lease : String) (db : Db) (l : LeasedAgenticJob)
    : Type 0 where
  pub stored : read_job db l.job.job_id ≡ some l.job
  pub named : l.lease_id ≡ lease
  pub ends : l.lease_expires_at ≡ expires
  pub state : l.job.state ≡ leased
  pub job_lease : l.job.lease_id ≡ some lease
  pub job_ends : l.job.lease_expires_at ≡ some expires
  pub counted : l.job.attempt ≤ l.job.max_attempts

-- of the lease that one step may hand out: the job was due, and it alone has changed
abbrev pub GrantedFrom :
    Instant → Instant → String → Db → String → Option LeasedAgenticJob → Db → Type 0
GrantedFrom now expires lease db id none db' = Unit
GrantedFrom now expires lease db id (some l) db' =
    IsGranted now expires lease db' l
    × (l.job.job_id ≡ id)
    × ((j : AgenticJob) × (read_job db id ≡ some j)
        × (is_leaseable j now ≡ true)
        × (j.attempt < j.max_attempts)
        × (l.job.attempt ≡ j.attempt + 1))

module _ (sha256_hex : String → String) (hash_number : String → ℕ)
    (sanitize : String → String) where
  lease_current_gives :
      (db : Db) (id : String) (now expires : Instant) (lease : String) (found : Option AgenticJob)
      → IsSound sha256_hex db
      → read_job db id ≡ found
      → Gives (lease_current db now expires lease found) (GrantedFrom now expires lease db id)
  unfolding lease_current
  lease_current_gives db id now expires lease none s held = tt
  lease_current_gives db id now expires lease (some j) s held =
      elim (Bool-cases (is_leaseable j now)) [
        | inr closed ↦ rw closed tt
        | inl opened ↦ elim (Bool-cases (is_exhausted j)) [
          | inl spent ↦
              let st : Step hash_number sanitize now none j
                  (exhausted_job "max_attempts_exhausted_on_lease" now j) =
                give_up "max_attempts_exhausted_on_lease" (rw opened) spent in
              rw (opened, spent, write_job-moved hash_number sanitize db id st held sha256_hex s) tt
          | inr fresh ↦
              let st : Step hash_number sanitize now none j (leased_job lease expires now j) =
                grant lease expires opened fresh in
              let named = read_job-id sha256_hex db id s held in
              let hit : str_eq id j.job_id ≡ true = (eq_iff id j.job_id).1 (sym named) in
              rw (opened, fresh, write_job-moved hash_number sanitize db id st held sha256_hex s)
                (
                  record {
                    stored = read_job-written hash_number sanitize db id st held j.job_id ∙ rw hit;
                    named = refl;
                    ends = refl;
                    state = refl;
                    job_lease = refl;
                    job_ends = refl;
                    counted = ground arith;
                  },
                  named,
                  (j, held, opened, ground arith, refl),
                )
        ]
      ]

  push-IsGranted :
      (now expires : Instant) (lease id : String) (db db' db'' : Db)
      (first : Option LeasedAgenticJob) (others : List LeasedAgenticJob) {n : ℕ}
      → GrantedFrom now expires lease db id first db'
      → Evolves sha256_hex hash_number sanitize (IsForeign expires lease) db' db''
      → All (IsGranted now expires lease db'') others
      → length others ≤ n
      → All (IsGranted now expires lease db'') (push_lease first others)
        × (length (push_lease first others) ≤ suc n)
  push-IsGranted now expires lease id db db' db'' none others got more granted fewer =
      (granted, omega arith)
  push-IsGranted now expires lease id db db' db'' (some l) others (g, same_id, from) more granted
        fewer =
      (
        (
          record {
            stored =
                Evolves-frozen sha256_hex hash_number sanitize l.job.job_id l.job
                  (leased_stuck hash_number sanitize l.job lease expires g.state g.job_lease
                    g.job_ends)
                  more g.stored;
            named = g.named;
            ends = g.ends;
            state = g.state;
            job_lease = g.job_lease;
            job_ends = g.job_ends;
            counted = g.counted;
          },
          granted,
        ),
        omega arith,
      )

  -- the leases of a batch are granted, and stay so while the batch goes on
  lease_rows_gives :
      (db : Db) (now expires : Instant) (lease : String) (rows : List JobRow)
      → now < expires
      → IsSound sha256_hex db
      → Gives
          (lease_rows db now expires lease rows)
          (λ ls db'. All (IsGranted now expires lease db') ls × (length ls ≤ length rows))
  unfolding lease_rows
  lease_rows_gives db now expires lease [] e s = (tt, omega arith)
  lease_rows_gives db now expires lease (r ∷ rs) e s =
      Gives-bind (lease_current db now expires lease (read_job db r.job_id)) _ _ _
        (Gives-and _ _ _
          (lease_current-Moves sha256_hex hash_number sanitize (λ t by. Unit) db r.job_id now
            expires lease (read_job db r.job_id) s tt refl)
          (lease_current_gives db r.job_id now expires lease (read_job db r.job_id) s refl))
        λ first db' (moves, got).
          let s' = Evolves-IsSound sha256_hex hash_number sanitize moves s in
          Gives-bind (lease_rows db' now expires lease rs) _ _ _
            (Gives-and _ _ _
              (lease_rows-Moves sha256_hex hash_number sanitize (IsForeign expires lease) db' now
                expires lease rs s' (e, λ x. cc x))
              (lease_rows_gives db' now expires lease rs e s'))
            λ others db'' (more, (granted, fewer)).
              push-IsGranted now expires lease r.job_id db db' db'' first others got more granted
                fewer

  -- In a sound table, and with a positive limit and duration, a batch does not throw, hands out
  -- at most `limit` leases, and each of them still stands in the table at its end: stored,
  -- leased under the batch's identifier until `now + ms`, within its attempts.
  pub lease_agentic_jobs-IsGranted :
      (db : Db) (limit ms : ℕ) (now : Instant) (lease : String) (zone : Option String)
      → 1 ≤ limit
      → 1 ≤ ms
      → IsSound sha256_hex db
      → Gives
          (lease_agentic_jobs db limit ms now lease zone)
          (λ ls db'. All (IsGranted now (now + ms) lease db') ls × (length ls ≤ limit))
  unfolding lease_agentic_jobs select_rows
  lease_agentic_jobs-IsGranted db limit ms now lease zone l m s =
      let some_limit : leb 1 limit ≡ true = ground arith in
      let some_ms : leb 1 ms ≡ true = ground arith in
      let rows = select_rows available_time (wants_lease zone now) limit db in
      let few : length rows ≤ limit = length-take limit _ in
      rw (some_limit, some_ms)
        (Gives-map (lease_rows db now (now + ms) lease rows) _ _
          (lease_rows_gives db now (now + ms) lease rows (omega arith) s)
          (λ ls db' (granted, fewer). (granted, omega arith)))

  -- In a sound table, and with a positive duration, leasing by identifier does not throw; a
  -- lease that it gives is stored under the identifier that was asked for, and comes from a job
  -- that was due with attempts left, one of which it uses.
  pub lease_agentic_job_by_id-IsGranted :
      (db : Db) (id : String) (ms : ℕ) (now : Instant) (lease : String)
      → 1 ≤ ms
      → IsSound sha256_hex db
      → Gives (lease_agentic_job_by_id db id ms now lease) (GrantedFrom now (now + ms) lease db id)
  unfolding lease_agentic_job_by_id
  lease_agentic_job_by_id-IsGranted db id ms now lease m s =
      let some_ms : leb 1 ms ≡ true = ground arith in
      rw some_ms (lease_current_gives db id now (now + ms) lease (read_job db id) s refl)

  -- a job that is due and has attempts left is given to the caller
  pub lease_agentic_job_by_id_complete :
      (db : Db) (id : String) (ms : ℕ) (now : Instant) (lease : String) (j : AgenticJob)
      → 1 ≤ ms
      → IsSound sha256_hex db
      → read_job db id ≡ some j
      → is_leaseable j now ≡ true
      → j.attempt < j.max_attempts
      → lease_agentic_job_by_id db id ms now lease
        ≡ ok (
          some (record {
            lease_id = lease;
            lease_expires_at = now + ms;
            job = leased_job lease (now + ms) now j;
          }),
          written db id (leased_job lease (now + ms) now j),
        )
  unfolding lease_agentic_job_by_id lease_current
  lease_agentic_job_by_id_complete db id ms now lease j m s held due few =
      let some_ms : leb 1 ms ≡ true = ground arith in
      let fresh : is_exhausted j ≡ false = ground arith in
      let st : Step hash_number sanitize now none j (leased_job lease (now + ms) now j) =
        grant lease (now + ms) due fresh in
      rw (some_ms, held, lease_current)
        (rw (due, fresh, write_job-moved hash_number sanitize db id st held sha256_hex s))

  -- In a sound table, completing a leased job under its lease answers true, and stores the job
  -- as succeeded with no lease; then no worker, this one included, completes it again: the
  -- answer is false, and the table stays as it is.
  pub complete_once :
      (db : Db) (id lease other : String) (output output' : Option String)
      (effect effect' : Option CanonicalEffect) (now later : Instant) (j : AgenticJob)
      → IsSound sha256_hex db
      → read_job db id ≡ some j
      → j.state ≡ leased
      → j.lease_id ≡ some lease
      → (db' : Db) × (complete_agentic_job db id lease output effect now ≡ ok (true, db'))
        × (read_job db' id ≡ some (completed_job output effect now j))
        × (complete_agentic_job db' id other output' effect' later ≡ ok (false, db'))
  unfolding complete_agentic_job finish_current
  complete_once db id lease other output output' effect effect' now later j s held l n =
      let mine : holds_lease j lease ≡ true =
        unfold holds_lease in ground (arith, eq_iff lease lease) in
      let st : Step hash_number sanitize now (some lease) j (completed_job output effect now j) =
        complete lease output effect mine in
      let done = read_job-written hash_number sanitize db id st held id ∙ rw (eq_refl id) in
      (
        written db id (completed_job output effect now j),
        rw (held, finish_current)
            (rw (mine, write_job-moved hash_number sanitize db id st held sha256_hex s)),
        done,
        rw (done, finish_current) (unfold holds_lease in refl),
      )
