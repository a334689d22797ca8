-- ===== src/Agentic/Jobs/Counting.antt =====
-- The numbers that packages/agentic/src/jobs.ts reports: a sweep's counts and the counts by state.
use carpe_os.Common.{
  ℕ, ◌+◌, ◌≤◌, ◌<◌, ◌≡◌, refl, ap, ◌∙◌, String, true, ◌&&◌, ◌||◌, Option, none, some, List, [], ◌∷◌,
  arith, Bool-cases, inl, inr, leb, length, keep, str_eq,
}
use carpe_os.Common.Table.{find, modify, All-find}
use carpe_os.Agentic.Types.{AgenticJob, Instant, JobState, dead}
use carpe_os.Agentic.Jobs.Store.{JobRow, Db, row_key, update_row, read_job}
use carpe_os.Agentic.Jobs.Query.{
  count_agentic_jobs, in_zone, is_pending, select_rows, updated_time, wants_reclaim,
}
use carpe_os.Agentic.Jobs.Lease.{is_exhausted, exhausted_job}
use carpe_os.Agentic.Jobs.Reclaim.{
  Sweep, has_expired, reclaim_current, reclaim_rows, reclaimed_job, no_sweep,
  reclaim_expired_agentic_jobs,
}
use carpe_os.Agentic.Jobs.Steps.{Step, give_up, reclaim}
use carpe_os.Agentic.Jobs.Invariant.{IsSoundRow, IsSound}
use carpe_os.Agentic.Jobs.Writes.{written, write_job-moved, written-IsSound, read_job-row}
use carpe_os.Agentic.Jobs.Granting.{Gives, Gives-bind, Gives-map}

-- The counts by state add up to the rows of the zone: no row is left out or counted twice.
pub count-total :
    (zone : Option String) (db : Db)
    → let c = count_agentic_jobs zone db in
      c.pending + c.leased + c.succeeded + c.blocked + c.dead ≡ length (keep (in_zone zone) db)
unfolding count_agentic_jobs
count-total _ [] = omega arith
count-total zone (r ∷ rs) = ground (arith, count-total zone rs)

abbrev is_dead : JobState → ℕ
is_dead dead = 1
is_dead _ = 0

abbrev pub dead_jobs : Db → ℕ
dead_jobs db = (count_agentic_jobs none db).dead

dead_jobs-modify :
    (id : String) (f : JobRow → JobRow) (db : Db) (r : JobRow)
    → find row_key id db ≡ some r
    → dead_jobs (modify row_key id f db) + is_dead r.state ≡ dead_jobs db + is_dead (f r).state
unfolding count_agentic_jobs find modify
dead_jobs-modify id f [] r h = ground arith
dead_jobs-modify id f (q ∷ rs) r h = elim (Bool-cases (str_eq q.job_id id)) [
  | inl here ↦ let at_q : some q ≡ some r = rw here at h in rw here (ground arith)
  | inr later ↦ rw later (ground (arith, dead_jobs-modify id f rs r (rw later at h)))
]

module _ (sha256_hex : String → String) (hash_number : String → ℕ)
    (sanitize : String → String) where
  -- how many jobs are dead after a legal move of one
  dead_jobs-written :
      (db : Db) (id : String) (j j' : AgenticJob)
      → IsSound sha256_hex db
      → read_job db id ≡ some j
      → dead_jobs (written db id j') + is_dead j.state ≡ dead_jobs db + is_dead j'.state
  dead_jobs-written db id j j' s held =
      let (r, found, e) = read_job-row db id held in
      let row = All-find row_key (IsSoundRow sha256_hex) id db s found in
      let state : is_dead r.state ≡ is_dead j.state =
        ap (λ (q : JobRow). is_dead q.state) row.columns
        ∙ ap (λ (i : AgenticJob). is_dead i.state) e in
      omega (arith, dead_jobs-modify id (update_row j') db r found, state)

  -- where a sweep stands: its counts agree with one another, with its limit and with the table
  record IsCounted (limit base : ℕ) (s : Sweep) (db : Db) : Type 0 where
    sound : IsSound sha256_hex db
    split : s.reclaimed + s.dead ≡ s.processed
    within : s.processed ≤ limit
    died : dead_jobs db ≡ base + s.dead

  module _ (limit base : ℕ) (now : Instant) where
    reclaim_current_gives :
        (db : Db) (id : String) (s : Sweep) (found : Option AgenticJob)
        → IsCounted limit base s db
        → s.processed < limit
        → read_job db id ≡ found
        → Gives (reclaim_current db now s found) (IsCounted limit base)
    unfolding reclaim_current
    reclaim_current_gives db id s none c room held = c
    reclaim_current_gives db id s (some j) c room held =
        elim (Bool-cases (has_expired j now || is_pending j.state && is_exhausted j)) [
          | inr idle ↦ rw idle c
          | inl due ↦ elim (Bool-cases (is_exhausted j)) [
            | inl spent ↦
                let note : String = "max_attempts_exhausted_on_reclaim" in
                let st : Step hash_number sanitize now none j (exhausted_job note now j) =
                  give_up note (ground arith) spent in
                let sound = c.sound in
                rw (due, spent, write_job-moved hash_number sanitize db id st held sha256_hex sound)
                  (record {
                    sound = written-IsSound hash_number sanitize db id st held sha256_hex sound;
                    split = omega (arith, c.split);
                    within = omega arith;
                    died = ground (
                      arith,
                      c.died,
                      dead_jobs-written db id j (exhausted_job note now j) sound held,
                    );
                  })
            | inr fresh ↦
                let st : Step hash_number sanitize now none j (reclaimed_job now j) =
                  reclaim (ground arith) fresh in
                let sound = c.sound in
                rw (due, fresh, write_job-moved hash_number sanitize db id st held sha256_hex sound)
                  (record {
                    sound = written-IsSound hash_number sanitize db id st held sha256_hex sound;
                    split = omega (arith, c.split);
                    within = omega arith;
                    died =
                        ground (
                          arith,
                          c.died,
                          dead_jobs-written db id j (reclaimed_job now j) sound held,
                        );
                  })
          ]
        ]

    reclaim_rows_gives :
        (db : Db) (s : Sweep) (rows : List JobRow)
        → IsCounted limit base s db
        → Gives (reclaim_rows db limit now s rows) (IsCounted limit base)
    unfolding reclaim_rows
    reclaim_rows_gives db s [] c = c
    reclaim_rows_gives db s (r ∷ rs) c = elim (Bool-cases (leb limit s.processed)) [
      | inl full ↦ rw full c
      | inr room ↦ rw room (
          Gives-bind (reclaim_current db now s (read_job db r.job_id)) _ _ _
            (reclaim_current_gives db r.job_id s (read_job db r.job_id) c (ground arith) refl)
            (λ s' db' c'. reclaim_rows_gives db' s' rs c'))
    ]

  -- In a sound table, and with a positive limit, a sweep does not throw. Its two counts add up
  -- to at most the limit, and the number of dead jobs in the table has grown by exactly the
  -- `dead` that it reports.
  pub reclaim_expired_agentic_jobs-counts :
      (db : Db) (limit : ℕ) (now : Instant) (zone : Option String)
      → 1 ≤ limit
      → IsSound sha256_hex db
      → Gives
          (reclaim_expired_agentic_jobs db (some limit) now zone)
          (λ s db'. (s.reclaimed + s.dead ≤ limit) × (dead_jobs db' ≡ dead_jobs db + s.dead))
  unfolding reclaim_expired_agentic_jobs
  reclaim_expired_agentic_jobs-counts db limit now zone l s =
      let some_limit : leb 1 limit ≡ true = ground arith in
      let rows = select_rows updated_time (wants_reclaim zone now) limit db in
      rw some_limit (
        Gives-map (reclaim_rows db limit now no_sweep rows) _ _
          (reclaim_rows_gives limit (dead_jobs db) now db no_sweep rows
            (record { sound = s; split = refl; within = omega arith; died = omega arith }))
          (λ s db' c. (omega (arith, c.split, c.within), c.died)))
