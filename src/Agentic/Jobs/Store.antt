-- ===== src/Agentic/Jobs/Store.antt =====
-- packages/agentic/src/jobs.ts: rows, reading and writing a job, and enqueueing.
use carpe_os.Common.{
  ℕ, String, Bool, false, ◌&&◌, ◌||◌, Option, none, some, List, [], ◌∷◌, ◌++◌, str_eq,
  if◌then◌else◌, or_else, Fallible, ok, threw, guard, ◌>>=◌, ◌>>◌,
}
use carpe_os.Common.Text.{◌<>◌}
use carpe_os.Common.Table.{find, modify}
use carpe_os.Agentic.Types.{
  JobState, StageId, AgenticJob, EnqueueSpec, none_yet, Instant, pending, is_known_policy,
  flash_model_id, policy_version, prompt_version_of, stage_text,
}
use carpe_os.Agentic.Digest.{StageDigestInput, compute_stage_input_digest, make_agentic_job_id}

-- a row of `agentic_jobs`
pub record JobRow : Type 0 where
  pub job_id : String
  pub trust_zone_id : String
  pub source_event_id : String
  pub stage : StageId
  pub state : JobState
  pub input_digest : String
  pub attempt : ℕ
  pub available_at : Instant
  pub lease_id : Option String
  pub lease_expires_at : Option Instant
  pub job_json : AgenticJob
  pub updated_at : Instant

abbrev pub Db : Type 0
Db = List JobRow

abbrev pub row_key : JobRow → String
row_key r = r.job_id

-- the values that `writeJob` binds
abbrev pub row_of : AgenticJob → JobRow
row_of j = record {
  job_id = j.job_id;
  trust_zone_id = j.trust_zone_id;
  source_event_id = j.source_event_id;
  stage = j.stage;
  state = j.state;
  input_digest = j.input_digest;
  attempt = j.attempt;
  available_at = j.available_at;
  lease_id = j.lease_id;
  lease_expires_at = j.lease_expires_at;
  job_json = j;
  updated_at = j.updated_at;
}

-- ON CONFLICT(job_id) DO UPDATE: the columns that identify the stage are not written again
abbrev pub update_row : AgenticJob → JobRow → JobRow
update_row j r = record r {
  state = j.state;
  attempt = j.attempt;
  available_at = j.available_at;
  lease_id = j.lease_id;
  lease_expires_at = j.lease_expires_at;
  job_json = j;
  updated_at = j.updated_at;
}

same_stage : StageId → StageId → Bool
same_stage a b = str_eq (stage_text a) (stage_text b)

-- UNIQUE(trust_zone_id, source_event_id, stage, input_digest)
unfoldable pub clashes : AgenticJob → JobRow → Bool
unfolding same_stage
clashes j r =
    str_eq r.trust_zone_id j.trust_zone_id
    && str_eq r.source_event_id j.source_event_id
    && same_stage r.stage j.stage
    && str_eq r.input_digest j.input_digest

unfoldable pub any_clash : AgenticJob → Db → Bool
unfolding clashes
any_clash j [] = false
any_clash j (r ∷ rs) = clashes j r || any_clash j rs

unfoldable pub upsert : AgenticJob → Db → Fallible Db
upsert j db = elim (find row_key j.job_id db) [
  | some r ↦ ok (modify row_key j.job_id (update_row j) db)
  | none ↦ if any_clash j db then threw "UNIQUE constraint failed" else ok (db ++ row_of j ∷ [])
]

-- The type of a stage admits the listed stages only, so that check of `assertJob` has no case.
unfoldable pub assert_job : AgenticJob → Fallible (Unit {0})
assert_job j = do
  guard (str_eq j.schema "carpeos.agentic.job/v1") ("invalid agentic job schema: " <> j.schema)
  guard (is_known_policy j.policy) ("invalid policy_version: " <> j.policy)
  guard (str_eq j.model_id "fake" || str_eq j.model_id flash_model_id)
      ("invalid model_id for Product 6: " <> j.model_id)

unfoldable pub write_job : Db → AgenticJob → Fallible Db
write_job db j = do assert_job j; upsert j db

unfoldable pub read_job : Db → String → Option AgenticJob
read_job db id = elim (find row_key id db) [ none ↦ none | some r ↦ some r.job_json ]

-- `getAgenticJob` creates the table if need be, and reads
abbrev pub get_agentic_job : Db → String → Option AgenticJob
get_agentic_job = read_job

abbrev pub without_lease : AgenticJob → AgenticJob
without_lease j = record j { lease_id = none; lease_expires_at = none; leased_at = none }

abbrev pub default_max_attempts : ℕ
default_max_attempts = 8

abbrev pub spec_model : EnqueueSpec → String
spec_model spec = or_else spec.model_id "fake"

abbrev pub digest_input : EnqueueSpec → StageDigestInput
digest_input spec = record {
  stage = spec.stage;
  source_event_id = spec.source_event_id;
  trust_zone_id = spec.trust_zone_id;
  pack_digest = spec.pack_digest;
  prompt_version = some (or_else spec.prompt_version (prompt_version_of spec.stage));
  model_id = spec_model spec;
  policy = some policy_version;
  schema_version = spec.schema_version;
  prev_output_digest = spec.prev_output_digest;
  extra = none;
}

module _ (sha256_hex : String → String) where
  abbrev pub new_job : EnqueueSpec → AgenticJob
  new_job spec = record {
    schema = "carpeos.agentic.job/v1";
    job_id = make_agentic_job_id sha256_hex (digest_input spec);
    trust_zone_id = spec.trust_zone_id;
    source_event_id = spec.source_event_id;
    stage = spec.stage;
    state = pending;
    policy = policy_version;
    model_id = spec_model spec;
    input_digest = compute_stage_input_digest sha256_hex (digest_input spec);
    output_digest = none;
    attempt = 0;
    max_attempts = or_else spec.max_attempts default_max_attempts;
    available_at = or_else spec.available_at spec.now;
    leased_at = none;
    lease_id = none;
    lease_expires_at = none;
    finished_at = none;
    error_code = none;
    last_error = none;
    canonical_effect = or_else spec.canonical_effect none_yet;
    created_at = spec.now;
    updated_at = spec.now;
  }

  -- the job, and the table after the call
  unfoldable pub enqueue_agentic_job : Db → EnqueueSpec → Fallible (AgenticJob × Db)
  enqueue_agentic_job db spec =
      elim (get_agentic_job db (make_agentic_job_id sha256_hex (digest_input spec))) [
        | some existing ↦ ok (existing, db)
        | none ↦ do db' ← write_job db (new_job spec); ok (new_job spec, db')
      ]
