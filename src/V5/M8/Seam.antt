-- ===== src/V5/M8/Seam.antt =====
-- packages/v5/src/m8-seam.ts: the choice of the seam, and the final decision. The two known receipts
-- are what a function from paths finds on disk.
use carpe_os.Common.{
  String, Bool, true, false, not, ◌&&◌, ◌||◌, Option, none, some, List, [], ◌∷◌, if◌then◌else◌,
  Fallible, ok, ◌>>=◌,
}
use carpe_os.Common.Text.{◌<>◌}
use carpe_os.V5.M8.{
  BodyFreeReceiptRef, M8Status, is_accepted, is_deferred, V5M8Decision, decide_m8, V5OffReleasePath,
  verify_v5_off_release_path,
}
use carpe_os.V5.M8.Receipt.{File, ClassifiedFourZeroReceipt, classify_four_zero_receipt, text_is}

abbrev pub install_path : String
install_path = "artifacts/g008/product4-exact-install-receipt.json"

abbrev pub gate_path : String
gate_path = "artifacts/g008/product4-release-gate-defer-receipt.json"

unfoldable pub scan_known_four_zero_receipts :
    (String → File) → Fallible (List ClassifiedFourZeroReceipt)
scan_known_four_zero_receipts disk =
    classify_four_zero_receipt install_path (disk install_path) >>= λ i.
    classify_four_zero_receipt gate_path (disk gate_path) >>= λ g. ok (i ∷ g ∷ [])

-- `classified.find(p)`
unfoldable pub find_receipt :
    (ClassifiedFourZeroReceipt → Bool)
    → List ClassifiedFourZeroReceipt
    → Option ClassifiedFourZeroReceipt
find_receipt p [] = none
find_receipt p (c ∷ cs) = if p c then some c else find_receipt p cs

abbrev pub is_release : ClassifiedFourZeroReceipt → Bool
is_release c = c.accepted_as_release_seam && c.body_free

abbrev pub is_smoke : ClassifiedFourZeroReceipt → Bool
is_smoke c = c.accepted_as_install_smoke && c.body_free

abbrev pub is_observed_gate : ClassifiedFourZeroReceipt → Bool
is_observed_gate c =
    c.exists
    && c.body_free
    && not c.accepted_as_release_seam
    && text_is c.receipt_type "product4_release_gate"

pub record Selection : Type 0 where
  pub four_zero_seam : Option BodyFreeReceiptRef
  pub install_smoke_ref : Option BodyFreeReceiptRef
  pub selection_notes : List String

abbrev pub ref_of : Bool → ClassifiedFourZeroReceipt → BodyFreeReceiptRef
ref_of accepted c = record { path = c.path; digest = c.digest; accepted = accepted }

-- an install smoke is not an accepted release
abbrev pub smoke_ref : Option ClassifiedFourZeroReceipt → Option BodyFreeReceiptRef
smoke_ref none = none
smoke_ref (some c) = some (ref_of false c)

abbrev pub smoke_note : Option ClassifiedFourZeroReceipt → String
smoke_note none = "no_compatible_body_free_release_seam"
smoke_note (some c) = "install_smoke_only:" <> c.path <> ";release_seam_absent"

abbrev pub select_observed :
    Option ClassifiedFourZeroReceipt → Option ClassifiedFourZeroReceipt → Selection
select_observed smoke none = record {
  four_zero_seam = none;
  install_smoke_ref = smoke_ref smoke;
  selection_notes = smoke_note smoke ∷ [];
}
select_observed smoke (some gate) = record {
  four_zero_seam = some (ref_of false gate);
  install_smoke_ref = smoke_ref smoke;
  selection_notes = smoke_note smoke ∷ ("observed_blocked_gate:" <> gate.path) ∷ [];
}

abbrev pub select_release :
    List ClassifiedFourZeroReceipt → Option ClassifiedFourZeroReceipt → Selection
select_release cs none =
    select_observed (find_receipt is_smoke cs) (find_receipt is_observed_gate cs)
select_release cs (some release) = record {
  four_zero_seam = some (ref_of true release);
  install_smoke_ref = none;
  selection_notes = ("selected_release_seam:" <> release.path) ∷ [];
}

unfoldable pub select_primary_four_zero_seam : List ClassifiedFourZeroReceipt → Selection
select_primary_four_zero_seam cs = select_release cs (find_receipt is_release cs)

pub record FinalV5DecisionReceipt : Type 0 where
  pub opt_in : Bool
  pub draft_only : Bool
  pub canonical_effect : String
  pub v5_off_release_path : V5OffReleasePath
  pub m8 : V5M8Decision
  pub classified_receipts : List ClassifiedFourZeroReceipt
  pub install_smoke_ref : Option BodyFreeReceiptRef
  pub selection_notes : List String
  pub draft_lane_shippable : Bool
  pub m8_complete : Bool

-- the seam where it is accepted
abbrev pub accepted_seam : Option BodyFreeReceiptRef → Option BodyFreeReceiptRef
accepted_seam none = none
accepted_seam (some r) = if r.accepted then some r else none

abbrev pub seam_accepted : Option BodyFreeReceiptRef → Bool
seam_accepted none = false
seam_accepted (some r) = r.accepted

abbrev pub status_accepted : M8Status → Bool
status_accepted is_accepted = true
status_accepted _ = false

abbrev pub status_deferred : M8Status → Bool
status_deferred is_deferred = true
status_deferred _ = false

-- `opt_in !== false`
abbrev pub opted : Option Bool → Bool
opted (some false) = false
opted _ = true

unfoldable pub final_v5_decision :
    Option Bool → List ClassifiedFourZeroReceipt → FinalV5DecisionReceipt
final_v5_decision opt_in classified =
    let selected = select_primary_four_zero_seam classified in
    let v5_off = verify_v5_off_release_path false false 0 true in
    let m8 = decide_m8 (opted opt_in) v5_off.pass (accepted_seam selected.four_zero_seam) in
    record {
      opt_in = opted opt_in;
      draft_only = true;
      canonical_effect = "none";
      v5_off_release_path = v5_off;
      m8 = m8;
      classified_receipts = classified;
      install_smoke_ref = selected.install_smoke_ref;
      selection_notes = selected.selection_notes;
      draft_lane_shippable =
          v5_off.pass && (status_deferred m8.status || status_accepted m8.status) && m8.draft_only;
      m8_complete = status_accepted m8.status && seam_accepted selected.four_zero_seam;
    }

unfoldable pub build_final_v5_decision :
    (String → File) → Option Bool → Fallible FinalV5DecisionReceipt
build_final_v5_decision disk opt_in =
    scan_known_four_zero_receipts disk >>= λ classified. ok (final_v5_decision opt_in classified)
