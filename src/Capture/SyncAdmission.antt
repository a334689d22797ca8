-- ===== src/Capture/SyncAdmission.antt =====
-- packages/capture/src/sync-admission.ts: which local events may leave the machine.
pub mod Thin
mod Tests
use carpe_os.Common.{
  String, Bool, true, false, ◌||◌, Option, none, some, List, [], ◌∷◌, str_eq, if◌then◌else◌,
  or_else, or_option,
}
use carpe_os.Common.Code.{trim, lowers_to}

abbrev pub sync_admission_policy_version : String
sync_admission_policy_version = "remote_thin_promoted_v1"

pub data SyncAdmissionPolicyId : Type 0 where
  remote_thin_promoted_v1 full_log is_off : SyncAdmissionPolicyId

abbrev pub policy_named : String → SyncAdmissionPolicyId
policy_named raw =
    if str_eq raw "full_log"
    then full_log
    else if str_eq raw "off"
    then is_off
    else remote_thin_promoted_v1

-- the explicit policy, or that of the environment, or the thin one
unfoldable pub resolve_sync_admission_policy :
    (explicit environment : Option String) → SyncAdmissionPolicyId
resolve_sync_admission_policy explicit environment =
    policy_named (trim (or_else (or_option explicit environment) sync_admission_policy_version))

pub record SyncAdmissionInput : Type 0 where
  pub event_type : String
  pub disposition : Option String
  pub lifecycle_status : Option String

pub data AdmissionDecision : Type 0 where
  admit skip : AdmissionDecision

pub record SyncAdmissionResult : Type 0 where
  pub policy : SyncAdmissionPolicyId
  pub decision : AdmissionDecision
  pub reason_codes : List String

abbrev pub result_of : SyncAdmissionPolicyId → AdmissionDecision → String → SyncAdmissionResult
result_of p d reason = record { policy = p; decision = d; reason_codes = reason ∷ [] }

-- a knowledge unit under the thin policy, by its status and disposition
unfoldable pub admit_unit : String → String → SyncAdmissionResult
admit_unit life disp =
    if lowers_to life "active" || lowers_to life "promoted"
    then result_of remote_thin_promoted_v1 admit "thin_admit_active_unit"
    else if lowers_to disp "promote" || lowers_to disp "promoted"
    then result_of remote_thin_promoted_v1 admit "thin_admit_promoted_unit"
    else if lowers_to life "draft" || lowers_to life "held" || str_eq life ""
    then result_of remote_thin_promoted_v1 skip "thin_skip_draft_or_held_unit"
    else result_of remote_thin_promoted_v1 skip "thin_skip_non_promoted_unit"

unfoldable pub evaluate_sync_admission :
    SyncAdmissionInput → SyncAdmissionPolicyId → SyncAdmissionResult
evaluate_sync_admission i is_off = result_of is_off skip "admission_off"
evaluate_sync_admission i full_log = result_of full_log admit "full_log"
evaluate_sync_admission i remote_thin_promoted_v1 =
    if str_eq i.event_type "EvidenceArtifact"
    then result_of remote_thin_promoted_v1 skip "thin_skip_raw_evidence"
    else if str_eq i.event_type "Observation" || str_eq i.event_type "Claim"
    then admit_unit (or_else i.lifecycle_status "") (or_else i.disposition "")
    else result_of remote_thin_promoted_v1 skip "thin_skip_event_type"
