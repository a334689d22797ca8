-- ===== src/V5/M8/Evidence.antt =====
-- The evidence on disk behind a complete decision of packages/v5/src/m8-seam.ts.
use carpe_os.Common.{
  ◌≡◌, refl, sym, ap, ◌∙◌, String, Bool, true, not, ◌&&◌, ◌||◌, ◌⊎◌, Option, List, [], ◌∷◌, arith,
  Bool-cases, inl, inr, ok, threw, Fallible, ◌>>=◌,
}
use carpe_os.Json.{Value}
use carpe_os.V5.M8.Receipt.{
  File, ClassifiedFourZeroReceipt, classify_four_zero_receipt, parsed, missing, not_json, body_hits,
  classify_value, is_null, no_hits, status_ok, as_text, get,
}
use carpe_os.V5.M8.Keys.{IsBodyFree, no_hits-IsBodyFree}
use carpe_os.V5.M8.Seam.{
  is_release, final_v5_decision, FinalV5DecisionReceipt, build_final_v5_decision,
  scan_known_four_zero_receipts, install_path, gate_path,
}
use carpe_os.V5.M8.Decision.{any_receipt, final_v5_decision_lem}

-- a receipt on disk: JSON free of bodies as far down as it is searched, whose status is one of success
pub record IsEvidence (f : File) : Type 0 where
  pub bytes : String
  pub value : Value
  pub read : f ≡ parsed bytes value
  pub body_free : IsBodyFree value
  pub succeeded : status_ok (as_text (get "status" value)) ≡ true

release_needs :
    (free success authority gate deferred : Bool)
    → (free && success && authority || gate && not deferred && success && free) && free ≡ true
    → (free ≡ true) × (success ≡ true)
release_needs free success authority gate deferred h = ground arith

classify_value-release :
    (path digest : String) (v : Value)
    → is_release (classify_value path digest v) ≡ true
    → (no_hits (body_hits v) ≡ true) × (status_ok (as_text (get "status" v)) ≡ true)
unfolding classify_value
classify_value-release path digest v h =
    release_needs (no_hits (body_hits v)) (status_ok (as_text (get "status" v))) _ _ _ h

classify-release :
    (path : String) (f : File) {c : ClassifiedFourZeroReceipt}
    → classify_four_zero_receipt path f ≡ ok c
    → is_release c ≡ true
    → IsEvidence f
unfolding classify_four_zero_receipt
classify-release path missing h r = ground arith
classify-release path (not_json digest) h r = ground arith
classify-release path (parsed digest v) {c} h r = elim (Bool-cases (is_null v)) [
  | inl empty ↦ ground arith
  | inr full ↦
      let same : classify_value path digest v ≡ c = ground arith in
      let (free, success) = classify_value-release path digest v (rw same r) in
      record {
        bytes = digest;
        value = v;
        read = refl;
        body_free = no_hits-IsBodyFree v free;
        succeeded = success;
      }
]

ok_inj : {A : Type 0} {a b : A} → ok a ≡ ok b → a ≡ b
ok_inj {A} {a} {b} h = ap (λ (r : Fallible A). elim r [ ok c ↦ c | threw e ↦ a ]) h

any_of_two :
    (c d : ClassifiedFourZeroReceipt)
    → any_receipt is_release (c ∷ d ∷ []) ≡ true
    → (is_release c ≡ true) ⊎ (is_release d ≡ true)
any_of_two c d h = elim (Bool-cases (is_release c)) [
  | inl here ↦ inl here
  | inr other ↦ inr (ground (arith, other, h))
]

scan_release :
    (i g : Fallible ClassifiedFourZeroReceipt) {cs : List ClassifiedFourZeroReceipt}
    → (i >>= λ c. g >>= λ d. ok (c ∷ d ∷ [])) ≡ ok cs
    → any_receipt is_release cs ≡ true
    → ((c : ClassifiedFourZeroReceipt) × (i ≡ ok c) × (is_release c ≡ true))
      ⊎ ((d : ClassifiedFourZeroReceipt) × (g ≡ ok d) × (is_release d ≡ true))
scan_release (threw e) g h r = ground arith
scan_release (ok c) (threw e) h r = ground arith
scan_release (ok c) (ok d) {cs} h r =
    let same : c ∷ d ∷ [] ≡ cs = ok_inj h in
    elim (any_of_two c d (ap (any_receipt is_release) same ∙ r)) [
      | inl here ↦ inl (c, refl, here)
      | inr there ↦ inr (d, refl, there)
    ]

made_from :
    (opt_in : Option Bool) (scan : Fallible (List ClassifiedFourZeroReceipt))
    (d : FinalV5DecisionReceipt)
    → (scan >>= λ cs. ok (final_v5_decision opt_in cs)) ≡ ok d
    → d.m8_complete ≡ true
    → (cs : List ClassifiedFourZeroReceipt) × (scan ≡ ok cs) × (any_receipt is_release cs ≡ true)
made_from opt_in (threw e) d h complete = ground arith
made_from opt_in (ok cs) d h complete = (
  cs,
  refl,
  sym (final_v5_decision_lem opt_in cs).0
      ∙ ap (λ (r : FinalV5DecisionReceipt). r.m8_complete) (ok_inj h)
      ∙ complete,
)

-- When a decision is made from a disk and says that it is complete, one of the two known receipts
-- is on that disk, is JSON, and has the status passed, verified or accepted. No object of it that
-- stands within nine levels of objects and arrays has one of the eight body keys, in any case; and
-- if one of the four keys for secrets stands within them, then the value under that key at the top
-- is missing, null or one of the seven harmless words. Nothing is said of keys deeper down, nor of
-- the value of a key for secrets below the top, which the code does not look at.
pub complete_needs-IsEvidence :
    (disk : String → File) (opt_in : Option Bool) (d : FinalV5DecisionReceipt)
    → build_final_v5_decision disk opt_in ≡ ok d
    → d.m8_complete ≡ true
    → IsEvidence (disk install_path) ⊎ IsEvidence (disk gate_path)
unfolding build_final_v5_decision scan_known_four_zero_receipts
complete_needs-IsEvidence disk opt_in d h complete =
    let install = classify_four_zero_receipt install_path (disk install_path) in
    let gate = classify_four_zero_receipt gate_path (disk gate_path) in
    let (cs, scanned, release) =
      made_from opt_in (install >>= λ i. gate >>= λ g. ok (i ∷ g ∷ [])) d h complete in
    elim (scan_release install gate scanned release) [
      | inl (c, read, good) ↦ inl (classify-release install_path (disk install_path) read good)
      | inr (c, read, good) ↦ inr (classify-release gate_path (disk gate_path) read good)
    ]
