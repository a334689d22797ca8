-- ===== src/Agentic/Digest.antt =====
-- packages/agentic/src/digest.ts: the identity of a stage's work. `sha256_hex` is `createHash` of
-- the platform, a parameter.
use Prim.Native.String
use carpe_os.Common.{String, Option, none, some, or_else}
use carpe_os.Common.Text.{◌<>◌}
use carpe_os.Json.{Value, null, str, object, end, field, stable_json}
use carpe_os.Agentic.Types.{StageId, stage_text, prompt_version_of, policy_version}

abbrev pub stage_schema_version : String
stage_schema_version = "carpeos.agentic.stage-digest/v1"

pub record StageDigestInput : Type 0 where
  pub stage : StageId
  pub source_event_id : String
  pub trust_zone_id : String
  pub pack_digest : Option String
  pub prompt_version : Option String
  pub model_id : String
  pub policy : Option String  -- policy_version
  pub schema_version : Option String
  pub prev_output_digest : Option String
  pub extra : Option Value

-- `x ?? null`
abbrev pub or_null : Option String → Value
or_null none = null
or_null (some s) = str s

abbrev value_or_null : Option Value → Value
value_or_null none = null
value_or_null (some v) = v

-- the object that is digested, in the order in which the code writes it
unfoldable pub stage_material : StageDigestInput → Value
stage_material d = object (
    field "schema" (str stage_schema_version) (
      field "stage" (str (stage_text d.stage)) (
        field "source_event_id" (str d.source_event_id) (
          field "trust_zone_id" (str d.trust_zone_id) (
            field "pack_digest" (or_null d.pack_digest) (
              field "prompt_version" (str (or_else d.prompt_version (prompt_version_of d.stage))) (
                field "model_id" (str d.model_id) (
                  field "policy_version" (str (or_else d.policy policy_version)) (
                    field "schema_version" (str (or_else d.schema_version stage_schema_version)) (
                      field "prev_output_digest" (or_null d.prev_output_digest)
                        (field "extra" (value_or_null d.extra) end)))))))))))

module _ (sha256_hex : String → String) where
  unfoldable pub digest_sha256 : Value → String
  digest_sha256 v = "sha256:" <> sha256_hex (stable_json v)

  unfoldable pub compute_stage_input_digest : StageDigestInput → String
  compute_stage_input_digest d = digest_sha256 (stage_material d)

  -- the identifier that belongs to a digest
  unfoldable pub job_id_of_digest : String → String
  job_id_of_digest digest = "agj_" <> String.slice (sha256_hex digest) 0 40

  unfoldable pub make_agentic_job_id : StageDigestInput → String
  unfolding job_id_of_digest
  make_agentic_job_id d = job_id_of_digest (compute_stage_input_digest d)
