-- ===== src/Agentic/Jobs/History.antt =====
-- How a table of packages/agentic/src/jobs.ts evolves: legal moves and new jobs, one at a time.
-- `Allowed` says at which instants, and under which leases, moves are made.
use carpe_os.Common.{
  ℕ, ◌≤◌, ◌≡◌, refl, sym, ap, ◌∙◌, subst, String, true, Option, none, some, [], ◌∷◌, ◌++◌, arith,
  All-append, ok, threw, Fallible, eq_iff, str_eq, Bool-cases, inl, inr,
}
use carpe_os.Agentic.Types.{AgenticJob, Instant}
use carpe_os.Agentic.Jobs.Store.{Db, row_of, read_job}
use carpe_os.Agentic.Jobs.Query.{is_terminal_agentic_state}
use carpe_os.Agentic.Jobs.Steps.{Step, Step-live, Step-attempt, SameStage, Step-SameStage}
use carpe_os.Agentic.Jobs.Invariant.{IsSoundJob, IsSoundRow, IsSound}
use carpe_os.Agentic.Jobs.Writes.{written, read_job-written, written-IsSound, read_job-append}

-- the call returned, with a table that has the property
abbrev pub Succeeds : {A : Type 0} → Fallible (A × Db) → (Db → Type 0) → Type 0
Succeeds (ok (a, db)) P = P db
Succeeds (threw e) P = ⊥

module _ (sha256_hex : String → String) (hash_number : String → ℕ)
    (sanitize : String → String) where
  pub data Evolves (Allowed : Instant → Option String → Type 0) : Db → Db → Type 0 where
    same : {db : Db} → Evolves Allowed db db
    move :
        {db db' : Db} (id : String) {now : Instant} {by : Option String} {j j' : AgenticJob}
        → Allowed now by
        → read_job db id ≡ some j
        → Step hash_number sanitize now by j j'
        → Evolves Allowed (written db id j') db'
        → Evolves Allowed db db'
    add :
        {db db' : Db} (j : AgenticJob)
        → read_job db j.job_id ≡ none
        → IsSoundJob sha256_hex j
        → Evolves Allowed (db ++ row_of j ∷ []) db'
        → Evolves Allowed db db'

  module _ {Allowed : Instant → Option String → Type 0} where
    pub Evolves-trans :
        {db db' db'' : Db}
        → Evolves Allowed db db'
        → Evolves Allowed db' db''
        → Evolves Allowed db db''
    Evolves-trans same e = e
    Evolves-trans (move id a h st r) e = move id a h st (Evolves-trans r e)
    Evolves-trans (add j h s r) e = add j h s (Evolves-trans r e)

    pub Evolves-IsSound :
        {db db' : Db} → Evolves Allowed db db' → IsSound sha256_hex db → IsSound sha256_hex db'
    Evolves-IsSound same s = s
    Evolves-IsSound (move {db} id a h st r) s =
        Evolves-IsSound r (written-IsSound hash_number sanitize db id st h sha256_hex s)
    Evolves-IsSound (add {db} j h t r) s = Evolves-IsSound r (
        All-append (IsSoundRow sha256_hex) db (row_of j ∷ []) s
          (record { columns = refl; job = t }, tt))

    -- a job under `k` that no allowed move can change stays as it is
    pub Evolves-frozen :
        {db db' : Db} (k : String) (j : AgenticJob)
        → ((now : Instant) (by : Option String) (j' : AgenticJob)
            → Allowed now by
            → Step hash_number sanitize now by j j'
            → ⊥)
        → Evolves Allowed db db'
        → read_job db k ≡ some j
        → read_job db' k ≡ some j
    Evolves-frozen k j stuck same h = h
    Evolves-frozen k j stuck (move {db} id {now} {by} {j = i} {j' = i'} a held st r) h =
        Evolves-frozen k j stuck r (elim (Bool-cases (str_eq id k)) [
          | inl hit ↦
              let at_k : id ≡ k = (eq_iff id k).0 hit in
              let same_job : some i ≡ some j = sym held ∙ ap (read_job db) at_k ∙ h in
              absurd
                (stuck now by i' a (subst (λ q. Step hash_number sanitize now by q i') (cc) st))
          | inr miss ↦ read_job-written hash_number sanitize db id st held k ∙ rw miss h
        ])
    Evolves-frozen k j stuck (add {db} i missing t r) h =
        Evolves-frozen k j stuck r (read_job-append db (row_of i) k h)

    -- a terminal job is never changed again
    pub Evolves-terminal :
        {db db' : Db} (k : String) (j : AgenticJob)
        → is_terminal_agentic_state j.state ≡ true
        → Evolves Allowed db db'
        → read_job db k ≡ some j
        → read_job db' k ≡ some j
    Evolves-terminal k j t =
        Evolves-frozen k j (λ now by j' a st. cc (t, Step-live hash_number sanitize st))

    -- a job is never lost, never changes its stage, and never gets attempts back
    pub Evolves-kept :
        {db db' : Db} (k : String) (j : AgenticJob)
        → Evolves Allowed db db'
        → read_job db k ≡ some j
        → (j' : AgenticJob) × (read_job db' k ≡ some j') × SameStage j j' × (j.attempt ≤ j'.attempt)
    Evolves-kept k j same h = (j, h, ground arith, omega arith)
    Evolves-kept k j (move {db} id {j = i} {j' = i'} a held st r) h =
        elim (Bool-cases (str_eq id k)) [
          | inr miss ↦
              Evolves-kept k j r (read_job-written hash_number sanitize db id st held k ∙ rw miss h)
          | inl hit ↦
              let at_k : id ≡ k = (eq_iff id k).0 hit in
              let same_job : some i ≡ some j = sym held ∙ ap (read_job db) at_k ∙ h in
              let now_read : read_job (written db id i') k ≡ some i' =
                read_job-written hash_number sanitize db id st held k ∙ rw hit in
              let (j'', found, stage, more) = Evolves-kept k i' r now_read in
              let moved = Step-SameStage hash_number sanitize st in
              let spent = Step-attempt hash_number sanitize st in
              (j'', found, ground arith, ground arith)
        ]
    Evolves-kept k j (add {db} i missing t r) h =
        Evolves-kept k j r (read_job-append db (row_of i) k h)
