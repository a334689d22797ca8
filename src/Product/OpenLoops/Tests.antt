-- ===== src/Product/OpenLoops/Tests.antt =====
-- A concrete log of packages/product-projection/src/open-loops.ts.
use carpe_os.Common.{◌≡◌, String, true, none, List, [], ◌∷◌, if◌then◌else◌, str_eq}
use carpe_os.Common.Text.{text_lt}
use carpe_os.Product.OpenLoops.{
  CanonicalEvent, claim, acceptance, supersession, accepted, rejected, conflict, Sign, negative,
  zero_sign, positive, build_open_loops, was_given,
}
use carpe_os.Product.OpenLoops.Kinds.{is_listed, wants, build_open_loops_lem}

abbrev by_code : String → String → Sign
by_code s t = if str_eq s t then zero_sign else if text_lt s t then negative else positive

abbrev log : List CanonicalEvent
log =
    claim (record {
      event_id = "ev_1";
      subject_ref = "project";
      lifecycle_status = "draft";
      claim_id = "claim_1";
      statement = "We ship on Thursdays.";
    })
    ∷ acceptance (record { claim_refs = "claim_1" ∷ []; decision = accepted })
    ∷ supersession (record {
      event_id = "ev_3";
      subject_ref = "project";
      supersedes_event_id = "ev_0";
      replacement_event_id = none;
      reason = "obsolete";
    })
    ∷ acceptance (record { claim_refs = "claim_1" ∷ []; decision = rejected })
    ∷ []

build_open_loops_lem_example : is_listed conflict "ev_1" (build_open_loops by_code log) ≡ true
unfolding wants was_given
build_open_loops_lem_example = build_open_loops_lem by_code conflict "ev_1" log
