-- ===== src/V5/Reducer.antt =====
-- packages/v5/src/reducer.ts: run scopes and their ordinals, spans, and the identifiers that are
-- derived from digests. packages/v5/src/draft-reduce.ts is in Draft.
pub mod Ordinals
pub mod Spans
pub mod Draft
mod Tests
use carpe_os.Common.{
  ℕ, ◌+◌, String, Bool, true, false, ◌&&◌, ◌||◌, not, Option, none, some, List, [], ◌∷◌, leb, ◌==◌,
  str_eq, if◌then◌else◌, or_else, map, Fallible, ok, threw,
}
use carpe_os.Common.Text.{◌<>◌, decimal}
use carpe_os.Common.Code.{text_take}
use carpe_os.Common.Table.{find, modify}
use carpe_os.Json.{Value, null, str, object, end, field}
use carpe_os.V5.Jcs.{sha256_jcs}

-- an entry of `counters`: a scope and its next ordinal
pub record Counter : Type 0 where
  pub scope : String
  pub next : ℕ

abbrev pub counter_key : Counter → String
counter_key c = c.scope

-- `createScopeCounterV2`: the two collections that the object closes over
pub record ScopeCounter : Type 0 where
  pub counters : List Counter
  pub used : List String

abbrev pub create_scope_counter_v2 : ScopeCounter
create_scope_counter_v2 = record { counters = []; used = [] }

abbrev pub add_counter : Option Counter → String → ScopeCounter → Fallible ScopeCounter
add_counter (some c) scope s = threw ("scope already exists: " <> scope)
add_counter none scope s =
    ok (record s { counters = record { scope = scope; next = 0 } ∷ s.counters })

unfoldable pub create_scope : ScopeCounter → String → Fallible ScopeCounter
create_scope s scope = add_counter (find counter_key scope s.counters) scope s

abbrev pub bump : Counter → Counter
bump c = record c { next = c.next + 1 }

abbrev pub allocate : Option Counter → String → ScopeCounter → Fallible (ℕ × ScopeCounter)
allocate none scope s = threw "run_scope_key must be created before ordinal allocation"
allocate (some c) scope s =
    ok (c.next, record s { counters = modify counter_key scope bump s.counters })

unfoldable pub next_ordinal : ScopeCounter → String → Fallible (ℕ × ScopeCounter)
next_ordinal s scope = allocate (find counter_key scope s.counters) scope s

abbrev pub used_key : String → ℕ → String
used_key scope ordinal = scope <> "|" <> decimal ordinal

unfoldable pub is_used : String → List String → Bool
is_used k [] = false
is_used k (j ∷ js) = str_eq j k || is_used k js

unfoldable pub has : ScopeCounter → String → ℕ → Bool
has s scope ordinal = is_used (used_key scope ordinal) s.used

unfoldable pub mark : ScopeCounter → String → ℕ → Fallible ScopeCounter
mark s scope ordinal =
    if is_used (used_key scope ordinal) s.used
    then threw ("replay/conflict: (" <> scope <> ", " <> decimal ordinal <> ") already used")
    else ok (record s { used = used_key scope ordinal ∷ s.used })

pub record Span : Type 0 where
  pub segment_id : String
  pub start : ℕ
  pub stop : ℕ  -- end

pub data Overlap : Type 0 where
  apart duplicate containment crossing : Overlap

unfoldable pub spans_overlap : Span → Span → Overlap
spans_overlap a b =
    if not (str_eq a.segment_id b.segment_id)
    then apart
    else if a.start == b.start && a.stop == b.stop
    then duplicate
    else if leb b.stop a.start || leb a.stop b.start
    then apart
    else if leb a.start b.start && leb b.stop a.stop || leb b.start a.start && leb a.stop b.stop
    then containment
    else crossing

-- `binding.x ?? null`
abbrev pub text_or_null : Option String → Value
text_or_null none = null
text_or_null (some s) = str s

pub record ScopeBinding : Type 0 where
  pub fixture : Option String
  pub pack_id : String
  pub redaction_policy_id : String
  pub profile_digest_binding : Option String

module _ (sha256_hex : String → String) where
  unfoldable pub create_run_scope_key : ScopeBinding → String
  create_run_scope_key b =
      "scope_"
      <> text_take 16 (
          sha256_jcs sha256_hex (
            object (
              field "schema" (str "carpeos.run-scope/v1") (
                field "pack_id" (str b.pack_id) (
                  field "redaction_policy_id" (str b.redaction_policy_id) (
                    field "profile_digest_binding" (text_or_null b.profile_digest_binding)
                      (field "fixture" (text_or_null b.fixture) end)))))))

  unfoldable pub formula_id : String → Value → String
  formula_id prefix material = prefix <> text_take 16 (sha256_jcs sha256_hex material)
