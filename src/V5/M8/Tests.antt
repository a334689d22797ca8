-- ===== src/V5/M8/Tests.antt =====
-- Concrete decisions of packages/v5/src/integration.ts and packages/v5/src/m8-seam.ts.
use carpe_os.Common.{
  ℕ, zero, suc, ◌≡◌, refl, ◌⊎◌, String, true, false, none, List, [], ◌∷◌, str_eq, if◌then◌else◌,
}
use carpe_os.Common.Code.{lowers_to, includes}
use carpe_os.Json.{Value, str, object, end, field, array, item, no_items}
use carpe_os.V5.M8.{decide_m8, is_accepted, DraftLane, verify_v5_off_release_path}
use carpe_os.V5.M8.Receipt.{
  File, missing, parsed, ClassifiedFourZeroReceipt, classify_value, unreadable, body_hits,
  has_lowered, collect_keys, get, member, join_comma, classify_four_zero_receipt,
}
use carpe_os.V5.M8.Seam.{
  final_v5_decision, build_final_v5_decision, install_path, gate_path,
  scan_known_four_zero_receipts, select_primary_four_zero_seam, find_receipt,
}
use carpe_os.V5.M8.Decision.{final_v5_decision_lem}
use carpe_os.V5.M8.Evidence.{complete_needs-IsEvidence, IsEvidence}

abbrev passed_gate : Value
passed_gate =
    object (field "receipt_type" (str "product4_release_gate") (field "status" (str "passed") end))

abbrev disk : String → File
disk path = if str_eq path gate_path then parsed "sha256:00" passed_gate else missing

nested : ℕ → Value → Value
nested zero v = v
nested (suc n) v = array (item (nested n v) no_items)

abbrev with_body : Value
with_body = object (
    field "receipt_type" (str "product4_release_gate")
      (field "status" (str "passed") (field "Raw" (str "text") end)))

abbrev receipts : List ClassifiedFourZeroReceipt
receipts =
    unreadable install_path false none "receipt_missing"
    ∷ classify_value gate_path "sha256:00" passed_gate
    ∷ []

with_body_test : (classify_value gate_path "d" with_body).blockers ≡ "not_body_free:raw" ∷ []
unfolding classify_value body_hits has_lowered collect_keys lowers_to get member join_comma includes
with_body_test = refl

-- nine arrays around an object with a body key, and a secret in an object below the top
abbrev deep : Value
deep = object (
    field "receipt_type" (str "product4_release_gate") (
      field "status" (str "passed") (
        field "auth" (object (field "token" (str "secret") end))
          (field "a" (nested 8 (object (field "prompt" (str "text") end))) end))))

-- the search does not see either, so that the receipt passes for one without bodies
deep_test : (classify_value gate_path "d" deep).accepted_as_release_seam ≡ true
unfolding classify_value body_hits has_lowered collect_keys lowers_to get member join_comma includes
    nested
deep_test = refl

final_v5_decision_lem_example :
    let d = final_v5_decision none receipts in
    (d.m8_complete ≡ true) × (d.draft_lane_shippable ≡ true) × (d.m8.status ≡ is_accepted)
unfolding classify_value body_hits has_lowered collect_keys lowers_to get member join_comma includes
final_v5_decision_lem_example = final_v5_decision_lem none receipts

abbrev lane : DraftLane
lane = record {
  m0_pass = true;
  pipeline_offline_pass = true;
  deepseek_primary = true;
  telemetry_local_store_pass = true;
  v5_off_path_pass = true;
  m8 = decide_m8 true true none;
}

complete_needs-IsEvidence_example : IsEvidence (disk install_path) ⊎ IsEvidence (disk gate_path)
unfolding build_final_v5_decision scan_known_four_zero_receipts classify_four_zero_receipt
    final_v5_decision select_primary_four_zero_seam find_receipt decide_m8
    verify_v5_off_release_path classify_value body_hits has_lowered collect_keys lowers_to get
    member join_comma includes
complete_needs-IsEvidence_example =
    complete_needs-IsEvidence disk none (final_v5_decision none receipts) refl refl
