-- ===== src/V5/Reducer/Tests.antt =====
-- Concrete scopes, spans and drafts of packages/v5/src/reducer.ts and packages/v5/src/draft-reduce.ts.
use carpe_os.Common.{◌≡◌, refl, ◌≢◌, ◌↔◌, String, none, List, [], ◌∷◌, ok, arith}
use carpe_os.Common.Text.{◌<>◌}
use carpe_os.Common.Code.{text_take}
use carpe_os.V5.Jcs.{sha256_jcs, jcs}
use carpe_os.Common.Table.{find, modify}
use carpe_os.V5.Reducer.{
  create_scope, next_ordinal, mark, is_used, create_run_scope_key, create_scope_counter_v2,
  ScopeCounter, Span, spans_overlap, apart,
}
use carpe_os.V5.Reducer.Ordinals.{
  ScopeCall, create, next, CountsFrom, allocated, ordinals-CountsFrom,
}
use carpe_os.V5.Reducer.Spans.{Shares, spans_overlap_lem}
use carpe_os.V5.Reducer.Draft.{
  DraftReduceInput, candidates, reduce_extract_to_draft, draft_output, binding_of,
}

abbrev calls : List ScopeCall
calls = create "a" ∷ next "a" ∷ create "b" ∷ next "b" ∷ next "a" ∷ create "a" ∷ next "a" ∷ []

ordinals-CountsFrom_example : CountsFrom "a" 0 (allocated create_scope_counter_v2 calls)
ordinals-CountsFrom_example = ordinals-CountsFrom calls "a"

abbrev marked : ScopeCounter
marked = record { counters = []; used = "a|0" ∷ [] }

abbrev outer : Span
outer = record { segment_id = "s"; start = 2; stop = 9 }

abbrev inner : Span
inner = record { segment_id = "s"; start = 4; stop = 9 }

spans_overlap_lem_example : spans_overlap outer inner ≢ apart ↔ Shares outer inner
spans_overlap_lem_example = spans_overlap_lem outer inner (omega arith) (omega arith)

abbrev input : DraftReduceInput
input = record {
  pack_id = "pack_1";
  pack_digest = "sha256:1";
  redaction_policy_id = none;
  profile_digest_binding = none;
  extract =
      candidates
        (record { quote_kind = "decision"; segment_id = "s"; start = 2; stop = 9; text = "we ship" }
          ∷ [])
        [];
  attempt_id = "att_1";
  now_iso = "2026-07-01T00:00:00.000Z";
}

abbrev hash : String → String
hash s = "0123456789abcdef" <> s

-- the scope of a draft is made for it, so that its ordinal is 0
draft_test :
    reduce_extract_to_draft hash input
    ≡ ok (draft_output hash input (create_run_scope_key hash (binding_of hash input)) 0)
unfolding reduce_extract_to_draft create_scope next_ordinal mark find modify is_used
    create_run_scope_key text_take sha256_jcs jcs
draft_test = refl
