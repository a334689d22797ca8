-- ===== src/V5/M8.antt =====
-- packages/v5/src/integration.ts: the decision on the seam to Product 4, and readiness of the draft
-- lane.
pub mod Receipt
pub mod Seam
pub mod Decision
pub mod Keys
pub mod Evidence
mod Tests
use carpe_os.Common.{
  ℕ, String, Bool, true, false, not, Option, none, some, List, [], ◌∷◌, ◌++◌, map, ◌==◌,
  if◌then◌else◌,
}
use carpe_os.Common.Text.{◌<>◌}

pub record BodyFreeReceiptRef : Type 0 where
  pub path : String
  pub digest : Option String
  pub accepted : Bool

pub data M8Status : Type 0 where
  is_accepted is_deferred is_blocked : M8Status

pub record V5M8Decision : Type 0 where
  pub opt_in : Bool
  pub draft_only : Bool
  pub canonical_effect : String
  pub v5_off_release_path_verified : Bool
  pub four_zero_seam : Option BodyFreeReceiptRef
  pub blockers : List String
  pub status : M8Status

abbrev pub is_empty : List String → Bool
is_empty [] = true
is_empty (b ∷ bs) = false

-- `if (wanted) …; else blockers.push(reason)`
abbrev pub require : Bool → String → List String → List String
require true reason bs = bs
require false reason bs = bs ++ reason ∷ []

abbrev pub seam_blockers : Option BodyFreeReceiptRef → List String → List String
seam_blockers none bs = bs ++ "no accepted body-free 4.0 evidence seam" ∷ []
seam_blockers (some r) bs = require r.accepted "4.0 evidence seam present but not accepted" bs

abbrev pub m8_status : Bool → Option BodyFreeReceiptRef → M8Status
m8_status true seam = is_accepted
m8_status false (some r) = is_blocked
m8_status false none = is_deferred

unfoldable pub decide_m8 : (opt_in verified : Bool) → Option BodyFreeReceiptRef → V5M8Decision
decide_m8 opt_in verified seam =
    let blockers = seam_blockers seam (require verified "V5-off release path not verified" []) in
    record {
      opt_in = opt_in;
      draft_only = true;
      canonical_effect = "none";
      v5_off_release_path_verified = verified;
      four_zero_seam = seam;
      blockers = blockers;
      status = m8_status (is_empty blockers) seam;
    }

pub record V5OffReleasePath : Type 0 where
  pub pass : Bool
  pub errors : List String

unfoldable pub verify_v5_off_release_path :
    (v5_enabled provider_network_used : Bool) (canonical_writes : ℕ) (telemetry_db_only : Bool)
    → V5OffReleasePath
verify_v5_off_release_path enabled network writes telemetry =
    let errors = require (writes == 0) "canonical writes must be zero on V5 path" (
      require (not network) "provider network used while V5-off"
        (require (not enabled) "V5 must be off for V5-off release path" [])) in
    record { pass = is_empty errors; errors = errors }

abbrev pub resolve_four_zero_seam_ref : String → Option String → Bool → BodyFreeReceiptRef
resolve_four_zero_seam_ref path digest accepted = record {
  path = path;
  digest = digest;
  accepted = accepted;
}

pub record DraftLane : Type 0 where
  pub m0_pass : Bool
  pub pipeline_offline_pass : Bool
  pub deepseek_primary : Bool
  pub telemetry_local_store_pass : Bool
  pub v5_off_path_pass : Bool
  pub m8 : V5M8Decision

pub record Readiness : Type 0 where
  pub ready : Bool
  pub m8_status : M8Status
  pub blockers : List String

-- a deferred decision is allowed, a blocked one is not
abbrev pub m8_blockers : M8Status → List String → List String
m8_blockers is_blocked bs = map (λ b. "m8: " <> b) bs
m8_blockers _ bs = []

unfoldable pub v5_draft_lane_readiness : DraftLane → Readiness
v5_draft_lane_readiness i =
    let own = require i.v5_off_path_pass "V5-off path not verified" (
      require i.telemetry_local_store_pass "local TELEMETRY_DB store not green" (
        require i.deepseek_primary "DeepSeek Direct is not primary extract route" (
          require i.pipeline_offline_pass "draft pipeline offline not green"
            (require i.m0_pass "M0 not green" [])))) in
    let blockers = own ++ m8_blockers i.m8.status i.m8.blockers in
    record { ready = is_empty blockers; m8_status = i.m8.status; blockers = blockers }
