-- ===== src/Agentic/Jobs/Enqueue.antt =====
-- `enqueueAgenticJob` of packages/agentic/src/jobs.ts: the same stage is enqueued once.
use carpe_os.Common.{
  ℕ, ◌≡◌, refl, sym, ap, ◌∙◌, String, Bool, true, false, ◌||◌, Option, none, some, [], ◌∷◌, ◌++◌,
  arith, ok, threw, inl, inr, Option-cases, str_eq, eq_iff, eq_refl,
}
use carpe_os.Common.Text.{◌<>◌}
use carpe_os.Common.Table.{find, find-append}
use carpe_os.Agentic.Types.{AgenticJob, EnqueueSpec, Instant, flash_model_id}
use carpe_os.Agentic.Digest.{job_id_of_digest, make_agentic_job_id}
use carpe_os.Agentic.Jobs.Store.{
  JobRow, Db, row_key, row_of, any_clash, upsert, write_job, read_job, spec_model, digest_input,
  new_job, enqueue_agentic_job, assert_job,
}
use carpe_os.Agentic.Jobs.Invariant.{IsSoundJob, IsSoundRow, IsSound}
use carpe_os.Agentic.Jobs.Writes.{read_job_of_find}
use carpe_os.Agentic.Jobs.History.{Evolves, same, add, Succeeds}

-- the model identifiers that the type of a specification admits
abbrev pub is_valid_model : EnqueueSpec → Bool
is_valid_model spec = str_eq (spec_model spec) "fake" || str_eq (spec_model spec) flash_model_id

module _ (sha256_hex : String → String) where
  -- the identity of the stage that a specification names
  abbrev pub spec_job_id : EnqueueSpec → String
  spec_job_id spec = make_agentic_job_id sha256_hex (digest_input spec)

  new_job-IsSoundJob :
      (spec : EnqueueSpec)
      → is_valid_model spec ≡ true
      → IsSoundJob sha256_hex (new_job sha256_hex spec)
  unfolding assert_job make_agentic_job_id job_id_of_digest
  new_job-IsSoundJob spec valid = ground arith

  row_named :
      (r : JobRow) → IsSoundRow sha256_hex r → r.job_id ≡ job_id_of_digest sha256_hex r.input_digest
  row_named r s =
      ap (λ (q : JobRow). q.job_id) s.columns
      ∙ s.job.named
      ∙ ap (λ (q : JobRow). job_id_of_digest sha256_hex q.input_digest) (sym s.columns)

  -- A row with the new job's digest would bear its identifier: the UNIQUE constraint cannot fail.
  no_clash :
      (db : Db) (j : AgenticJob)
      → IsSound sha256_hex db
      → j.job_id ≡ job_id_of_digest sha256_hex j.input_digest
      → find row_key j.job_id db ≡ none
      → any_clash j db ≡ false
  unfolding any_clash find
  no_clash [] j s named missing = refl
  no_clash (r ∷ rs) j (sound, s) named missing = ground (
    arith,
    row_named r sound,
    eq_iff r.input_digest j.input_digest,
    eq_iff r.job_id j.job_id,
    no_clash rs j s named,
  )

  -- a stage that was enqueued before is answered with the job that is stored
  pub enqueue_known :
      (db : Db) (spec : EnqueueSpec) {j : AgenticJob}
      → read_job db (spec_job_id spec) ≡ some j
      → enqueue_agentic_job sha256_hex db spec ≡ ok (j, db)
  unfolding enqueue_agentic_job
  enqueue_known db spec held = rw (held, enqueue_agentic_job)

  -- a new job with any other model identifier is refused
  pub enqueue_refused :
      (db : Db) (spec : EnqueueSpec)
      → is_valid_model spec ≡ false
      → read_job db (spec_job_id spec) ≡ none
      → enqueue_agentic_job sha256_hex db spec
        ≡ threw ("invalid model_id for Product 6: " <> spec_model spec)
  unfolding enqueue_agentic_job write_job assert_job
  enqueue_refused db spec invalid missing = rw (missing, enqueue_agentic_job) (rw invalid)

  module _ (db : Db) (spec : EnqueueSpec) (s : IsSound sha256_hex db)
      (valid : is_valid_model spec ≡ true) where
    missing-find : read_job db (spec_job_id spec) ≡ none → find row_key (spec_job_id spec) db ≡ none
    unfolding read_job
    missing-find h = ground arith

    -- a new job is appended
    enqueue_new :
        read_job db (spec_job_id spec) ≡ none
        → enqueue_agentic_job sha256_hex db spec
          ≡ ok (new_job sha256_hex spec, db ++ row_of (new_job sha256_hex spec) ∷ [])
    unfolding enqueue_agentic_job write_job upsert
    enqueue_new missing =
        let t = new_job-IsSoundJob spec valid in
        let absent = missing-find missing in
        rw (missing, enqueue_agentic_job)
          (rw (t.asserted)
            (rw (absent, upsert) (rw (no_clash db (new_job sha256_hex spec) s t.named absent))))

    -- the call returns, and the job that it returns is the one stored under the stage's identity
    pub enqueue_lem :
        (j : AgenticJob) × (db' : Db) × (enqueue_agentic_job sha256_hex db spec ≡ ok (j, db'))
        × (read_job db' (spec_job_id spec) ≡ some j)
    enqueue_lem = elim (Option-cases (read_job db (spec_job_id spec))) [
      | inr (j, held) ↦ (j, db, enqueue_known db spec held, held)
      | inl missing ↦
          let j = new_job sha256_hex spec in
          (
            j,
            db ++ row_of j ∷ [],
            enqueue_new missing,
            read_job_of_find (db ++ row_of j ∷ []) (spec_job_id spec) {r = row_of j} (
                find-append row_key (spec_job_id spec) db (row_of j) (missing-find missing)
                ∙ rw (eq_refl (spec_job_id spec))),
          )
    ]

    module _ (hash_number : String → ℕ) (sanitize : String → String)
        (Allowed : Instant → Option String → Type 0) where
      pub enqueue_moves :
          Succeeds
            (enqueue_agentic_job sha256_hex db spec)
            (Evolves sha256_hex hash_number sanitize Allowed db)
      enqueue_moves = elim (Option-cases (read_job db (spec_job_id spec))) [
        | inr (j, held) ↦ rw (enqueue_known db spec held) same
        | inl missing ↦
            rw (enqueue_new missing)
              (add (new_job sha256_hex spec) missing (new_job-IsSoundJob spec valid) same)
      ]

  -- In a sound table, enqueueing a stage with a model that the store accepts succeeds, and
  -- enqueueing the same stage again (the same digested input), at whatever time and with
  -- whatever limits, returns the same job and leaves the table as it is.
  pub enqueue_idempotent :
      (db : Db) (spec again : EnqueueSpec)
      → IsSound sha256_hex db
      → is_valid_model spec ≡ true
      → digest_input again ≡ digest_input spec
      → (j : AgenticJob) × (db' : Db) × (enqueue_agentic_job sha256_hex db spec ≡ ok (j, db'))
        × (enqueue_agentic_job sha256_hex db' again ≡ ok (j, db'))
  enqueue_idempotent db spec again s valid e =
      let (j, db', first, held) = enqueue_lem db spec s valid in
      let id = ap (make_agentic_job_id sha256_hex) e in
      (j, db', first, enqueue_known db' again (ap (read_job db') id ∙ held))
