-- ===== src/Product/OpenLoops.antt =====
-- packages/product-projection/src/open-loops.ts: what still wants attention, derived from the
-- canonical events. `localeCompare` is a parameter.
pub mod Kinds
mod Tests
use carpe_os.Common.{
  ℕ, String, Bool, true, false, not, ◌&&◌, ◌||◌, Option, none, some, List, [], ◌∷◌, ◌++◌, str_eq,
  if◌then◌else◌,
}
use carpe_os.Common.Text.{◌<>◌}
use carpe_os.Common.Code.{text_take}

pub record Claim : Type 0 where
  pub event_id : String
  pub subject_ref : String
  pub lifecycle_status : String
  pub claim_id : String
  pub statement : String

-- any decision but accepted and rejected asks for a review
pub data Verdict : Type 0 where
  accepted rejected needs_review : Verdict

pub record AcceptanceDecision : Type 0 where
  pub claim_refs : List String
  pub decision : Verdict

pub record Supersession : Type 0 where
  pub event_id : String
  pub subject_ref : String
  pub supersedes_event_id : String
  pub replacement_event_id : Option String
  pub reason : String

pub data CanonicalEvent : Type 0 where
  claim : Claim → CanonicalEvent
  acceptance : AcceptanceDecision → CanonicalEvent
  supersession : Supersession → CanonicalEvent
  other_event : String → CanonicalEvent

pub data OpenLoopKind : Type 0 where
  draft_claim review conflict unresolved_supersession verification_gap : OpenLoopKind

abbrev pub kind_text : OpenLoopKind → String
kind_text draft_claim = "draft_claim"
kind_text review = "needs_review"
kind_text conflict = "conflict"
kind_text unresolved_supersession = "unresolved_supersession"
kind_text verification_gap = "verification_gap"

pub record OpenLoopItem : Type 0 where
  pub loop_id : String
  pub kind : OpenLoopKind
  pub subject_ref : String
  pub title : String
  pub source_event_ids : List String

abbrev pub is_in : String → List String → Bool
is_in k [] = false
is_in k (x ∷ xs) = str_eq x k || is_in k xs

abbrev pub same_verdict : Verdict → Verdict → Bool
same_verdict accepted accepted = true
same_verdict rejected rejected = true
same_verdict needs_review needs_review = true
same_verdict _ _ = false

-- the claims that some decision gave the verdict: the sets `accepted`, `rejected` and `needsReview`
unfoldable pub was_given : Verdict → String → List CanonicalEvent → Bool
was_given v k [] = false
was_given v k (acceptance d ∷ es) =
    (same_verdict d.decision v && is_in k d.claim_refs) || was_given v k es
was_given v k (_ ∷ es) = was_given v k es

abbrev pub loop_of : String → OpenLoopKind → Claim → OpenLoopItem
loop_of prefix kind c = record {
  loop_id = prefix <> c.event_id;
  kind = kind;
  subject_ref = c.subject_ref;
  title = text_take 160 c.statement;
  source_event_ids = c.event_id ∷ [];
}

abbrev pub when : Bool → OpenLoopItem → List OpenLoopItem
when true l = l ∷ []
when false l = []

unfoldable pub claim_loops : List CanonicalEvent → Claim → List OpenLoopItem
claim_loops es c =
    let yes_given = was_given accepted c.claim_id es in
    let no_given = was_given rejected c.claim_id es in
    when (str_eq c.lifecycle_status "draft" && not yes_given && not no_given)
      (loop_of "loop_draft_" draft_claim c)
    ++ when (was_given needs_review c.claim_id es) (loop_of "loop_review_" review c)
    ++ when (yes_given && no_given) (loop_of "loop_conflict_" conflict c)

-- the loops of the claims, in the order of the events
unfoldable pub claims_loops : List CanonicalEvent → List CanonicalEvent → List OpenLoopItem
claims_loops es [] = []
claims_loops es (claim c ∷ rest) = claim_loops es c ++ claims_loops es rest
claims_loops es (_ ∷ rest) = claims_loops es rest

abbrev pub is_missing : Option String → Bool
is_missing none = true
is_missing (some s) = false

abbrev pub supersession_loop : Supersession → OpenLoopItem
supersession_loop s = record {
  loop_id = "loop_super_" <> s.event_id;
  kind = unresolved_supersession;
  subject_ref = s.subject_ref;
  title = text_take 160 s.reason;
  source_event_ids = s.event_id ∷ s.supersedes_event_id ∷ [];
}

unfoldable pub supersession_loops : List CanonicalEvent → List OpenLoopItem
supersession_loops [] = []
supersession_loops (supersession s ∷ rest) =
    when (is_missing s.replacement_event_id) (supersession_loop s) ++ supersession_loops rest
supersession_loops (_ ∷ rest) = supersession_loops rest

-- what `localeCompare` says
pub data Sign : Type 0 where
  negative zero_sign positive : Sign

abbrev pub or_sign : Sign → Sign → Sign
or_sign zero_sign s = s
or_sign negative s = negative
or_sign positive s = positive

abbrev pub is_positive : Sign → Bool
is_positive positive = true
is_positive _ = false

module _ (locale_compare : String → String → Sign) where
  abbrev pub compare_loops : OpenLoopItem → OpenLoopItem → Sign
  compare_loops a b =
      or_sign (locale_compare (kind_text a.kind) (kind_text b.kind))
        (locale_compare a.loop_id b.loop_id)

  -- `sort`, which is stable
  unfoldable pub insert_loop : OpenLoopItem → List OpenLoopItem → List OpenLoopItem
  insert_loop l [] = l ∷ []
  insert_loop l (m ∷ ms) =
      let rest = insert_loop l ms in
      if is_positive (compare_loops l m) then m ∷ rest else l ∷ m ∷ ms

  unfoldable pub sort_loops : List OpenLoopItem → List OpenLoopItem
  sort_loops [] = []
  sort_loops (l ∷ ls) = insert_loop l (sort_loops ls)

  unfoldable pub build_open_loops : List CanonicalEvent → List OpenLoopItem
  build_open_loops es = sort_loops (claims_loops es es ++ supersession_loops es)
