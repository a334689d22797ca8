-- ===== src/V5/M8/Decision.antt =====
-- What the decisions of packages/v5/src/integration.ts and packages/v5/src/m8-seam.ts promise.
use carpe_os.Common.{
  ◌≡◌, refl, ◌∙◌, String, Bool, true, false, not, ◌&&◌, ◌||◌, Option, none, some, List, [], ◌∷◌,
  ◌++◌, if◌then◌else◌, arith, Option-cases, inl, inr,
}
use carpe_os.V5.M8.{
  BodyFreeReceiptRef, M8Status, is_accepted, is_deferred, is_blocked, decide_m8, DraftLane,
  verify_v5_off_release_path, v5_draft_lane_readiness, m8_blockers, require, is_empty,
  seam_blockers, m8_status,
}
use carpe_os.V5.M8.Receipt.{ClassifiedFourZeroReceipt}
use carpe_os.V5.M8.Seam.{
  is_release, find_receipt, select_primary_four_zero_seam, final_v5_decision, seam_accepted,
  status_accepted, status_deferred, accepted_seam, is_observed_gate,
}

-- The decision is accepted exactly when the V5-off path is verified and the seam is accepted; with a
-- seam that falls short of this it is blocked, and without a seam it is deferred. Opting in or out
-- makes no difference.
pub decide_m8_lem :
    (opt_in verified : Bool) (seam : Option BodyFreeReceiptRef)
    → (decide_m8 opt_in verified seam).status ≡ (
        if verified && seam_accepted seam
        then is_accepted
        else elim seam [ none ↦ is_deferred | some r ↦ is_blocked ])
unfolding decide_m8
decide_m8_lem opt_in true none = refl
decide_m8_lem opt_in false none = refl
decide_m8_lem opt_in verified (some r) = ground arith

-- whether a list has a receipt with a property
abbrev pub any_receipt : (ClassifiedFourZeroReceipt → Bool) → List ClassifiedFourZeroReceipt → Bool
any_receipt p [] = false
any_receipt p (c ∷ cs) = p c || any_receipt p cs

find_receipt-none :
    (p : ClassifiedFourZeroReceipt → Bool) (cs : List ClassifiedFourZeroReceipt)
    → find_receipt p cs ≡ none
    → any_receipt p cs ≡ false
unfolding find_receipt
find_receipt-none p [] h = refl
find_receipt-none p (c ∷ cs) h = ground (arith, find_receipt-none p cs)

find_receipt-some :
    (p : ClassifiedFourZeroReceipt → Bool) (cs : List ClassifiedFourZeroReceipt)
    {c : ClassifiedFourZeroReceipt}
    → find_receipt p cs ≡ some c
    → any_receipt p cs ≡ true
unfolding find_receipt
find_receipt-some p [] h = ground arith
find_receipt-some p (q ∷ cs) {c} h = ground (arith, find_receipt-some p cs {c = c})

selected_seam :
    (cs : List ClassifiedFourZeroReceipt)
    → seam_accepted (select_primary_four_zero_seam cs).four_zero_seam ≡ any_receipt is_release cs
unfolding select_primary_four_zero_seam
selected_seam cs = elim (Option-cases (find_receipt is_release cs)) [
  | inl absent ↦
      rw (absent, find_receipt-none is_release cs absent)
        (elim (Option-cases (find_receipt is_observed_gate cs)) [
          | inl no_gate ↦ rw no_gate refl
          | inr (g, gate) ↦ rw gate refl
        ])
  | inr (c, found) ↦ rw (found, find_receipt-some is_release cs found) refl
]

seam_verdict :
    (seam : Option BodyFreeReceiptRef) (release : Bool)
    → seam_accepted seam ≡ release
    → let status =
        m8_status (is_empty (seam_blockers (accepted_seam seam) [])) (accepted_seam seam) in
      (status_accepted status && seam_accepted seam ≡ release)
      × ((status_deferred status || status_accepted status) && true ≡ true)
      × (status ≡ (if release then is_accepted else is_deferred))
seam_verdict none release h = ground arith
seam_verdict (some r) release h = ground arith

abbrev pub status_blocked : M8Status → Bool
status_blocked is_blocked = true
status_blocked _ = false

-- The final decision, over any classified receipts: the seam is complete, and the status accepted,
-- exactly when one of them is a body-free accepted release; otherwise the status is deferred, never
-- blocked, so a passed install smoke or a blocked gate does not count; and the draft lane can ship
-- in every case.
pub final_v5_decision_lem :
    (opt_in : Option Bool) (cs : List ClassifiedFourZeroReceipt)
    → (let d = final_v5_decision opt_in cs in
        (d.m8_complete ≡ any_receipt is_release cs)
        × (d.draft_lane_shippable ≡ true)
        × (d.m8.status ≡ (if any_receipt is_release cs then is_accepted else is_deferred)))
unfolding final_v5_decision select_primary_four_zero_seam verify_v5_off_release_path decide_m8
final_v5_decision_lem opt_in cs =
    seam_verdict (select_primary_four_zero_seam cs).four_zero_seam (any_receipt is_release cs)
      (selected_seam cs)

is_empty-five :
    (a b c d e : Bool) (r s t u v : String) (rest : List String)
    → is_empty (require e r (require d s (require c t (require b u (require a v [])))) ++ rest)
      ≡ a && b && c && d && e && is_empty rest
is_empty-five a b c d e r s t u v rest = ground arith

m8_blockers-decide_m8 :
    (opt_in verified : Bool) (seam : Option BodyFreeReceiptRef)
    → let d = decide_m8 opt_in verified seam in
      is_empty (m8_blockers d.status d.blockers) ≡ not (status_blocked d.status)
unfolding decide_m8
m8_blockers-decide_m8 opt_in true none = refl
m8_blockers-decide_m8 opt_in false none = refl
m8_blockers-decide_m8 opt_in verified (some r) = ground arith

-- The lane is ready exactly when its five parts are and the decision on the seam is not blocked,
-- where that decision is one that `decideM8` makes.
pub v5_draft_lane_readiness_lem :
    (i : DraftLane) (opt_in verified : Bool) (seam : Option BodyFreeReceiptRef)
    → i.m8 ≡ decide_m8 opt_in verified seam
    → (v5_draft_lane_readiness i).ready
      ≡ i.m0_pass
        && i.pipeline_offline_pass
        && i.deepseek_primary
        && i.telemetry_local_store_pass
        && i.v5_off_path_pass
        && not (status_blocked i.m8.status)
unfolding v5_draft_lane_readiness
v5_draft_lane_readiness_lem i opt_in verified seam e =
    is_empty-five i.m0_pass i.pipeline_offline_pass i.deepseek_primary i.telemetry_local_store_pass
      i.v5_off_path_pass _ _ _ _ _ (m8_blockers i.m8.status i.m8.blockers)
    ∙ rw e (rw (m8_blockers-decide_m8 opt_in verified seam) refl)
