-- ===== src/V5/M8/Receipt.antt =====
-- packages/v5/src/m8-seam.ts: the classification of a receipt on disk. What `readFileSync` and
-- `JSON.parse` find is the argument: nothing, bytes that are not JSON, or a value.
use carpe_os.Common.{
  ℕ, suc, String, Bool, true, false, not, ◌&&◌, ◌||◌, Option, none, some, List, [], ◌∷◌, ◌++◌,
  str_eq, ltb, if◌then◌else◌, keep, Fallible, ok, threw,
}
use carpe_os.Common.Text.{◌<>◌}
use carpe_os.Common.Code.{lowers_to, includes}
use carpe_os.Json.{
  Value, undefined, null, str, array, object, Elements, no_items, item, Members, end, field,
}

pub data File : Type 0 where
  missing : File
  not_json : (digest : String) → File
  parsed : (digest : String) → Value → File

pub record ClassifiedFourZeroReceipt : Type 0 where
  pub path : String
  pub exists : Bool
  pub body_free : Bool
  pub receipt_type : Option String
  pub status : Option String
  pub accepted_as_release_seam : Bool
  pub accepted_as_install_smoke : Bool
  pub digest : Option String
  pub blockers : List String
  pub notes : List String

-- FORBIDDEN_BODY_KEYS
abbrev pub forbidden_body_keys : List String
forbidden_body_keys =
    "body" ∷ "prompt" ∷ "completion" ∷ "transcript" ∷ "raw" ∷ "private_key" ∷ "cookie"
    ∷ "authorization" ∷ []

abbrev pub is_any : List String → String → Bool
is_any [] s = false
is_any (t ∷ ts) s = str_eq s t || is_any ts s

-- SAFE_METADATA_ENUM_VALUES
abbrev pub is_safe_metadata : String → Bool
is_safe_metadata = is_any (
    "not_requested" ∷ "not_attempted" ∷ "none" ∷ "passed" ∷ "blocked" ∷ "deferred" ∷ "missing" ∷ [])

-- `collectKeys`: the keys down to a depth of eight; the code lowers their case, and here the
-- comparison does
unfoldable mutual
  pub collect_keys : ℕ → Value → List String
  collect_keys depth (array xs) = if ltb 8 depth then [] else collect_items depth xs
  collect_keys depth (object fs) = if ltb 8 depth then [] else collect_fields depth fs
  collect_keys depth _ = []

  pub collect_items : ℕ → Elements → List String
  collect_items depth no_items = []
  collect_items depth (item x xs) = collect_keys (suc depth) x ++ collect_items depth xs

  pub collect_fields : ℕ → Members → List String
  collect_fields depth end = []
  collect_fields depth (field k v fs) = k ∷ collect_keys (suc depth) v ++ collect_fields depth fs

unfoldable pub has_lowered : List String → String → Bool
has_lowered [] t = false
has_lowered (k ∷ ks) t = lowers_to k t || has_lowered ks t

-- `rec[key]`, `undefined` where there is none
unfoldable pub member : String → Members → Value
member k end = undefined
member k (field j v fs) = elim (member k fs) [
  | undefined ↦ if str_eq j k then v else undefined
  | w ↦ w
]

unfoldable pub get : String → Value → Value
get k (object fs) = member k fs
get k _ = undefined

abbrev pub as_text : Value → Option String
as_text (str s) = some s
as_text _ = none

-- a soft key's value at the top counts as a hit unless it is missing or safe metadata
abbrev pub is_soft_hit : Value → Bool
is_soft_hit undefined = false
is_soft_hit null = false
is_soft_hit (str s) = not (is_safe_metadata s)
is_soft_hit _ = true

abbrev pub soft_keys : List String
soft_keys = "credentials" ∷ "credential" ∷ "token" ∷ "password" ∷ []

unfoldable pub body_hits : Value → List String
body_hits v =
    let keys = collect_keys 0 v in
    keep (has_lowered keys) forbidden_body_keys
    ++ keep (λ k. has_lowered keys k && is_soft_hit (get k v)) soft_keys

abbrev pub no_hits : List String → Bool
no_hits [] = true
no_hits (h ∷ hs) = false

unfoldable pub join_comma : List String → String
join_comma [] = ""
join_comma (s ∷ []) = s
join_comma (s ∷ (t ∷ ts)) = s <> "," <> join_comma (t ∷ ts)

abbrev pub text_is : Option String → String → Bool
text_is none t = false
text_is (some s) t = str_eq s t

abbrev pub status_ok : Option String → Bool
status_ok s = text_is s "passed" || text_is s "verified" || text_is s "accepted"

-- `"release_authority"` and `"product4_release_authority"` contain it too
abbrev pub is_authority : Option String → Bool
is_authority none = false
is_authority (some t) =
    str_eq t "release_authority"
    || str_eq t "product4_release_authority"
    || includes t "release_authority"

unfoldable pub gate_texts : Elements → List String
gate_texts no_items = []
gate_texts (item (str s) xs) = ("gate:" <> s) ∷ gate_texts xs
gate_texts (item _ xs) = gate_texts xs

abbrev pub gate_blockers : Value → List String
gate_blockers (array xs) = gate_texts xs
gate_blockers _ = []

abbrev pub when : Bool → List String → List String
when true ns = ns
when false ns = []

unfoldable pub classify_value : String → String → Value → ClassifiedFourZeroReceipt
classify_value path digest rec =
    let hits = body_hits rec in
    let free = no_hits hits in
    let kind = as_text (get "receipt_type" rec) in
    let status = as_text (get "status" rec) in
    let smoke =
      free
      && text_is kind "product4_exact_install"
      && text_is status "passed"
      && text_is (as_text (get "authority" rec)) "not_attempted" in
    let authority = free && status_ok status && is_authority kind in
    let gate = text_is kind "product4_release_gate" in
    let deferred =
      text_is status "blocked"
      || text_is status "defer"
      || text_is (as_text (get "decision" rec)) "defer" in
    let gate_passed = gate && not deferred && status_ok status && free in
    let blockers =
      when (not free) (("not_body_free:" <> join_comma hits) ∷ [])
      ++ when (gate && deferred)
          ("release_gate_deferred_or_blocked" ∷ gate_blockers (get "blockers" rec)) in
    let release = authority || gate_passed in
    record {
      path = path;
      exists = true;
      body_free = free;
      receipt_type = kind;
      status = status;
      accepted_as_release_seam = release;
      accepted_as_install_smoke = smoke;
      digest = some digest;
      blockers =
          if not release && not smoke && no_hits blockers
          then "not_accepted_as_m8_release_seam" ∷ []
          else blockers;
      notes =
          when smoke ("install_smoke_passed_authority_not_attempted" ∷ [])
          ++ when authority ("release_authority_passed" ∷ [])
          ++ when gate_passed ("release_gate_passed" ∷ []);
    }

abbrev pub unreadable : String → Bool → Option String → String → ClassifiedFourZeroReceipt
unreadable path exists digest blocker = record {
  path = path;
  exists = exists;
  body_free = false;
  receipt_type = none;
  status = none;
  accepted_as_release_seam = false;
  accepted_as_install_smoke = false;
  digest = digest;
  blockers = blocker ∷ [];
  notes = [];
}

abbrev pub is_null : Value → Bool
is_null null = true
is_null _ = false

-- a JSON text `null` has no member to read, so the code throws on it
unfoldable pub classify_four_zero_receipt : String → File → Fallible ClassifiedFourZeroReceipt
classify_four_zero_receipt path missing = ok (unreadable path false none "receipt_missing")
classify_four_zero_receipt path (not_json digest) =
    ok (unreadable path true (some digest) "receipt_not_json")
classify_four_zero_receipt path (parsed digest v) =
    if is_null v
    then threw "Cannot read properties of null (reading 'receipt_type')"
    else ok (classify_value path digest v)
