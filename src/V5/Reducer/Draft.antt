-- ===== src/V5/Reducer/Draft.antt =====
-- packages/v5/src/draft-reduce.ts: an extract becomes a draft proposal, never a canonical row.
use carpe_os.Common.{ℕ, suc, String, Option, none, List, [], ◌∷◌, or_else, Fallible, ok, ◌>>=◌}
use carpe_os.Json.{Value, str, num, object, array, Elements, item, no_items, end, field}
use carpe_os.V5.Jcs.{digest_sha256}
use carpe_os.V5.Reducer.{
  ScopeBinding, create_run_scope_key, create_scope_counter_v2, create_scope, next_ordinal, mark,
  formula_id,
}

pub record CitationSpan : Type 0 where
  pub segment_id : String
  pub start : ℕ
  pub stop : ℕ  -- end

pub record ExtractCandidate : Type 0 where
  pub quote_kind : String
  pub segment_id : String
  pub start : ℕ
  pub stop : ℕ  -- end
  pub text : String

pub data ExtractResponse : Type 0 where
  candidates : List ExtractCandidate → List CitationSpan → ExtractResponse
  no_candidate : ExtractResponse

pub record DraftReduceInput : Type 0 where
  pub pack_id : String
  pub pack_digest : String
  pub redaction_policy_id : Option String
  pub profile_digest_binding : Option String
  pub extract : ExtractResponse
  pub attempt_id : String
  pub now_iso : String

pub data DraftStatus : Type 0 where
  is_draft is_no_candidate : DraftStatus

pub record ProposalRow : Type 0 where
  pub row_id : String
  pub run_scope_key : String
  pub run_ordinal : ℕ
  pub proposal_id : String
  pub status : DraftStatus
  pub reason_code : String
  pub transition_seq : ℕ
  pub selected_attempt_ids : List String
  pub selected_candidate_ids : List String
  pub synthesis_id : Option String
  pub canonical_effect : String
  pub created_at : String
  pub updated_at : String

pub record Transition : Type 0 where
  pub transition_id : String
  pub from_status : DraftStatus
  pub to_status : DraftStatus
  pub canonical_effect : String

pub record DraftProposalOutput : Type 0 where
  pub run_scope_key : String
  pub run_ordinal : ℕ
  pub run_id : String
  pub proposal_id : String
  pub status : DraftStatus
  pub reason_code : String
  pub selected_attempt_ids : List String
  pub selected_candidate_ids : List String
  pub proposal_row : ProposalRow
  pub transitions : List Transition
  pub canonical_effect : String
  pub extract_digest : String

abbrev pub candidate_list : ExtractResponse → List ExtractCandidate
candidate_list no_candidate = []
candidate_list (candidates cs citations) = cs

abbrev pub draft_status : ExtractResponse → DraftStatus
draft_status no_candidate = is_no_candidate
draft_status (candidates cs citations) = is_draft

abbrev pub draft_reason : ExtractResponse → String
draft_reason no_candidate = "extract_no_candidate"
draft_reason (candidates cs citations) = "selected_primary"

-- the JSON values of an extract
abbrev candidate_value : ExtractCandidate → Value
candidate_value c = object (
    field "quote_kind" (str c.quote_kind) (
      field "segment_id" (str c.segment_id)
        (field "start" (num c.start) (field "end" (num c.stop) (field "text" (str c.text) end)))))

candidate_values : List ExtractCandidate → Elements
candidate_values [] = no_items
candidate_values (c ∷ cs) = item (candidate_value c) (candidate_values cs)

citation_values : List CitationSpan → Elements
citation_values [] = no_items
citation_values (c ∷ cs) =
    item
      (object (
        field "segment_id" (str c.segment_id)
          (field "start" (num c.start) (field "end" (num c.stop) end))))
      (citation_values cs)

unfoldable pub extract_value : ExtractResponse → Value
unfolding candidate_values citation_values
extract_value no_candidate = object (
    field "schema" (str "carpeos.llm-extract/v1") (
      field "result" (str "no_candidate")
        (field "candidates" (array no_items) (field "citations" (array no_items) end))))
extract_value (candidates cs citations) = object (
    field "schema" (str "carpeos.llm-extract/v1") (
      field "result" (str "candidates") (
        field "candidates" (array (candidate_values cs))
          (field "citations" (array (citation_values citations)) end))))

module _ (sha256_hex : String → String) where
  -- `candidates.map((c, i) => formulaId("cand_", …))`, from index `i` on
  unfoldable pub candidate_ids : String → ℕ → List ExtractCandidate → List String
  candidate_ids proposal i [] = []
  candidate_ids proposal i (c ∷ cs) =
      formula_id sha256_hex "cand_" (
        object (
          field "proposal_id" (str proposal) (
            field "i" (num i) (
              field "segment_id" (str c.segment_id)
                (field "start" (num c.start) (field "end" (num c.stop) end))))))
      ∷ candidate_ids proposal (suc i) cs

  abbrev pub binding_of : DraftReduceInput → ScopeBinding
  binding_of i = record {
    fixture = none;
    pack_id = i.pack_id;
    redaction_policy_id = or_else i.redaction_policy_id "redact_v1";
    profile_digest_binding = i.profile_digest_binding;
  }

  -- what is built once the scope has its ordinal
  unfoldable pub draft_output : DraftReduceInput → String → ℕ → DraftProposalOutput
  draft_output i scope ordinal =
      let run_id = formula_id sha256_hex "run_" (
        object (
          field "run_scope_key" (str scope)
            (field "run_ordinal" (num ordinal) (field "pack" (str i.pack_digest) end)))) in
      let proposal =
        formula_id sha256_hex "prop_"
          (object (field "run_id" (str run_id) (field "attempt" (str i.attempt_id) end))) in
      let ids = candidate_ids proposal 0 (candidate_list i.extract) in
      record {
        run_scope_key = scope;
        run_ordinal = ordinal;
        run_id = run_id;
        proposal_id = proposal;
        status = draft_status i.extract;
        reason_code = draft_reason i.extract;
        selected_attempt_ids = i.attempt_id ∷ [];
        selected_candidate_ids = ids;
        proposal_row = record {
          row_id =
              formula_id sha256_hex "row_" (
                object
                  (field "proposal_id" (str proposal) (field "run_ordinal" (num ordinal) end)));
          run_scope_key = scope;
          run_ordinal = ordinal;
          proposal_id = proposal;
          status = draft_status i.extract;
          reason_code = draft_reason i.extract;
          transition_seq = 0;
          selected_attempt_ids = i.attempt_id ∷ [];
          selected_candidate_ids = ids;
          synthesis_id = none;
          canonical_effect = "none";
          created_at = i.now_iso;
          updated_at = i.now_iso;
        };
        transitions =
            record {
              transition_id =
                  formula_id sha256_hex "tr_"
                    (object (field "proposal_id" (str proposal) (field "seq" (num 0) end)));
              from_status = draft_status i.extract;
              to_status = draft_status i.extract;
              canonical_effect = "none";
            }
            ∷ [];
        canonical_effect = "none";
        extract_digest = digest_sha256 sha256_hex (
            object (
              field "schema" (str "carpeos.llm-attempt-result/v1")
                (field "result" (extract_value i.extract) end)));
      }

  unfoldable pub reduce_extract_to_draft : DraftReduceInput → Fallible DraftProposalOutput
  reduce_extract_to_draft i =
      let scope = create_run_scope_key sha256_hex (binding_of i) in
      create_scope create_scope_counter_v2 scope >>= λ counter.
      next_ordinal counter scope >>= λ (ordinal, counter').
      mark counter' scope ordinal >>= λ counter''. ok (draft_output i scope ordinal)
