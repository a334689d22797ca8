-- ===== src/Agentic/Types.antt =====
-- packages/agentic/src/types.ts: the contracts of the agentic layer.
use carpe_os.Common.{ℕ, String, Bool, ◌||◌, Option, List, str_eq}

abbrev pub flash_model_id : String
flash_model_id = "deepseek-v4-flash"

abbrev pub policy_version : String
policy_version = "agentic_v1.1"

-- AGENTIC_KNOWN_POLICY_VERSIONS: the current stamp and the legacy one
abbrev pub is_known_policy : String → Bool
is_known_policy v = str_eq v policy_version || str_eq v "agentic_v1"

pub data KnowledgeKind : Type 0 where
  decision constraint preference procedure fact_candidate open_question : KnowledgeKind

pub data JobState : Type 0 where
  pending leased succeeded blocked dead : JobState

pub JobState-discrete : Discrete JobState
JobState-discrete = hlevel

pub data StageId : Type 0 where
  admit pack triage extract verify structure gate materialize project reconcile : StageId

pub StageId-discrete : Discrete StageId
StageId-discrete = hlevel

abbrev pub stage_text : StageId → String
stage_text admit = "admit"
stage_text pack = "pack"
stage_text triage = "triage"
stage_text extract = "extract"
stage_text verify = "verify"
stage_text structure = "structure"
stage_text gate = "gate"
stage_text materialize = "materialize"
stage_text project = "project"
stage_text reconcile = "reconcile"

-- AGENTIC_PROMPT_VERSIONS
abbrev pub prompt_version_of : StageId → String
prompt_version_of admit = "agentic.admit/v1"
prompt_version_of pack = "agentic.pack/v1"
prompt_version_of triage = "agentic.triage/v1"
prompt_version_of extract = "agentic.extract/v1"
prompt_version_of verify = "agentic.verify/v1"
prompt_version_of structure = "agentic.structure/v1"
prompt_version_of gate = "agentic.gate/v1"
prompt_version_of materialize = "agentic.materialize/v1"
prompt_version_of project = "agentic.project/v1"
prompt_version_of reconcile = "agentic.reconcile/v1"

pub data CanonicalEffect : Type 0 where
  none_yet observation draft_claim : CanonicalEffect

-- A time is the instant that its ISO text denotes, in milliseconds: `toISOString` has a fixed
-- width, so the order of the texts is the order of the instants.
abbrev pub Instant : Type 0
Instant = ℕ

pub record AgenticJob : Type 0 where
  pub schema : String
  pub job_id : String
  pub trust_zone_id : String
  pub source_event_id : String
  pub stage : StageId
  pub state : JobState
  pub policy : String  -- policy_version
  pub model_id : String
  pub input_digest : String
  pub output_digest : Option String
  pub attempt : ℕ
  pub max_attempts : ℕ
  pub available_at : Instant
  pub leased_at : Option Instant
  pub lease_id : Option String
  pub lease_expires_at : Option Instant
  pub finished_at : Option Instant
  pub error_code : Option String
  pub last_error : Option String
  pub canonical_effect : CanonicalEffect
  pub created_at : Instant
  pub updated_at : Instant

-- `model_id`, `max_attempts` and the like are optional; `pack_digest` and `prev_output_digest` may
-- be missing or null, which `?? null` makes one.
pub record EnqueueSpec : Type 0 where
  pub trust_zone_id : String
  pub source_event_id : String
  pub stage : StageId
  pub model_id : Option String
  pub pack_digest : Option String
  pub prev_output_digest : Option String
  pub prompt_version : Option String
  pub schema_version : Option String
  pub canonical_effect : Option CanonicalEffect
  pub max_attempts : Option ℕ
  pub available_at : Option Instant
  pub now : Instant

pub record Citation : Type 0 where
  pub evidence_event_id : String
  pub segment_id : Option String
  pub start : ℕ
  pub stop : ℕ  -- end
  pub quote : String

-- `confidence` is a number between 0 and 1, in hundredths; the code's test for a number that is
-- missing is the missing value here
pub record ExtractCandidate : Type 0 where
  pub kind : KnowledgeKind
  pub statement : String
  pub citations : List Citation
  pub confidence : Option ℕ

pub data GateDecision : Type 0 where
  promote hold reject : GateDecision

pub record GateFeatures : Type 0 where
  pub cite_ok : Bool
  pub secret_ok : Bool
  pub kind_allowlisted : Bool
  pub model_confidence : Option ℕ

pub record GateResult : Type 0 where
  pub policy : String  -- policy_version
  pub decision : GateDecision
  pub reason_codes : List String
  pub features : GateFeatures
