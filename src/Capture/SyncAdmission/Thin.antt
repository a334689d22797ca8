-- ===== src/Capture/SyncAdmission/Thin.antt =====
-- The decision of packages/capture/src/sync-admission.ts against a declarative account of it.
use carpe_os.Common.{
  ◌≡◌, ◌≢◌, refl, String, Bool, true, false, ◌&&◌, ◌||◌, Option, some, str_eq, if◌then◌else◌,
  or_else, arith, eq_iff,
}
use carpe_os.Common.Code.{lowers_to, trim}
use carpe_os.Capture.SyncAdmission.{
  SyncAdmissionPolicyId, remote_thin_promoted_v1, full_log, is_off, SyncAdmissionInput, admit, skip,
  admit_unit, evaluate_sync_admission, resolve_sync_admission_policy,
}

-- a status or a disposition that says promoted, in any case of letters
abbrev pub is_promoted_unit : SyncAdmissionInput → Bool
is_promoted_unit i =
    let life = or_else i.lifecycle_status "" in
    let disp = or_else i.disposition "" in
    lowers_to life "active"
    || lowers_to life "promoted"
    || lowers_to disp "promote"
    || lowers_to disp "promoted"

abbrev pub leaves : SyncAdmissionPolicyId → SyncAdmissionInput → Bool
leaves is_off i = false
leaves full_log i = true
leaves remote_thin_promoted_v1 i =
    (str_eq i.event_type "Observation" || str_eq i.event_type "Claim") && is_promoted_unit i

admit_unit_lem :
    (life disp : String)
    → (admit_unit life disp).decision ≡ (
        if lowers_to life "active"
          || lowers_to life "promoted"
          || lowers_to disp "promote"
          || lowers_to disp "promoted"
        then admit
        else skip)
unfolding admit_unit
admit_unit_lem life disp = ground arith

evidence_is_no_unit :
    (t : String)
    → str_eq t "EvidenceArtifact" ≡ true
    → (str_eq t "Observation" || str_eq t "Claim") ≡ false
evidence_is_no_unit t h = rw ((eq_iff t "EvidenceArtifact").0 h) refl

-- An event may leave the machine exactly when the policy is the full log, or when the policy is the
-- thin one and the event is an observation or a claim whose status is active or promoted, or whose
-- disposition is promote or promoted, in letters of any case. So raw evidence leaves under no policy
-- but the full log, and nothing leaves when admission is off.
pub evaluate_sync_admission_lem :
    (i : SyncAdmissionInput) (p : SyncAdmissionPolicyId)
    → (evaluate_sync_admission i p).decision ≡ (if leaves p i then admit else skip)
unfolding evaluate_sync_admission
evaluate_sync_admission_lem i is_off = refl
evaluate_sync_admission_lem i full_log = refl
evaluate_sync_admission_lem i remote_thin_promoted_v1 = ground (
  arith,
  admit_unit_lem (or_else i.lifecycle_status "") (or_else i.disposition ""),
  evidence_is_no_unit i.event_type,
)

-- A policy text leads to the full log, or turns admission off, only if it says exactly so up to white
-- space around it: any other text falls back to the thin policy.
pub resolve_sync_admission_policy_lem :
    (explicit : String) (environment : Option String)
    → resolve_sync_admission_policy (some explicit) environment ≢ remote_thin_promoted_v1
    → str_eq (trim explicit) "full_log" || str_eq (trim explicit) "off" ≡ true
unfolding resolve_sync_admission_policy
resolve_sync_admission_policy_lem explicit environment h = ground (arith, h)
