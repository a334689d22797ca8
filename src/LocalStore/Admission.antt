-- ===== src/LocalStore/Admission.antt =====
-- packages/local-store/src/store.ts: `resolveSyncAdmissionMeta`, what the rules of admission are told
-- of an event in the outbox.
use carpe_os.Common.{
  String, Bool, true, false, Option, none, some, List, [], ◌∷◌, ◌++◌, str_eq, ltb, if◌then◌else◌,
  take,
}
use carpe_os.Json.{Value, Members, Elements, str, object, array, field, end, item, no_items}
use carpe_os.Schema.{EventPayload, protected_content, other_payload, CanonicalEvent}
use carpe_os.LocalStore.Store.{EventRow, DispositionRow}
use carpe_os.Capture.SyncAdmission.{
  SyncAdmissionPolicyId, AdmissionDecision, evaluate_sync_admission,
}

-- `value[key]`
unfoldable pub member : String → Members → Option Value
member k end = none
member k (field j v fs) = if str_eq j k then some v else member k fs

abbrev text_of : Option Value → Option String
text_of (some (str s)) = some s
text_of _ = none

abbrev items_of : Option Value → Elements
items_of (some (array xs)) = xs
items_of _ = no_items

abbrev payload_members : EventPayload → Members
payload_members (protected_content r others) = others
payload_members (other_payload (object fs)) = fs
payload_members (other_payload _) = end

abbrev is_empty_text : String → Bool
is_empty_text s = str_eq s ""

abbrev add_text : Value → List String → List String
add_text (str s) rest = if is_empty_text s then rest else s ∷ rest
add_text _ rest = rest

-- the elements that are texts and not empty
texts_in : Elements → List String
texts_in no_items = []
texts_in (item v xs) = add_text v (texts_in xs)

abbrev is_text : String → Option String → Bool
is_text wanted none = false
is_text wanted (some s) = str_eq s wanted

abbrev add_option : Bool → Option String → List String → List String
add_option true (some s) rest = s ∷ rest
add_option _ _ rest = rest

abbrev add_ref : (kind : String) → Value → List String → List String
add_ref kind (object fs) rest =
    add_option (is_text kind (text_of (member "ref_type" fs))) (text_of (member "ref_id" fs)) rest
add_ref kind _ rest = rest

-- the identifiers in the provenance that are of a kind
refs_of : (kind : String) → Elements → List String
refs_of kind no_items = []
refs_of kind (item v xs) = add_ref kind v (refs_of kind xs)

pub record AdmissionMeta : Type 0 where
  pub disposition : Option String
  pub lifecycle_status : Option String

-- the newer of two rows, the earlier inserted of two of one time
abbrev newer : DispositionRow → Option DispositionRow → Option DispositionRow
newer r none = some r
newer r (some q) = if ltb r.created_at q.created_at then some q else some r

-- WHERE … ORDER BY created_at DESC LIMIT 1
latest : (DispositionRow → Bool) → List DispositionRow → Option DispositionRow
latest p [] = none
latest p (r ∷ rs) = let rest = latest p rs in if p r then newer r rest else rest

abbrev disposition_in : Option DispositionRow → Option String
disposition_in none = none
disposition_in (some r) = some r.disposition

-- `if (d?.disposition) { …; break; }`
abbrev or_next : Option String → Option String → Option String
or_next none rest = rest
or_next (some s) rest = if is_empty_text s then rest else some s

first_disposition :
    (String → DispositionRow → Bool) → List DispositionRow → List String → Option String
unfolding latest
first_disposition p rows [] = none
first_disposition p rows (id ∷ ids) =
    or_next (disposition_in (latest (p id) rows)) (first_disposition p rows ids)

abbrev or_else_look : Option String → Option String → Option String
or_else_look (some s) rest = some s
or_else_look none rest = rest

abbrev by_event : String → DispositionRow → Bool
by_event id r = str_eq r.source_event_id id

abbrev by_artifact : String → DispositionRow → Bool
by_artifact id r = str_eq r.artifact_id id

unfoldable pub resolve_sync_admission_meta : List DispositionRow → CanonicalEvent → AdmissionMeta
unfolding first_disposition latest texts_in refs_of
resolve_sync_admission_meta rows e =
    let provenance = items_of (member "provenance" e.others) in
    record {
      disposition = or_else_look (disposition_in (latest (by_event e.event_id) rows)) (
          or_else_look (first_disposition by_event rows (take 8 (refs_of "event" provenance))) (
            first_disposition by_artifact rows (
              take 8 (
                texts_in (items_of (member "evidence_artifact_refs" (payload_members e.payload)))
                ++ refs_of "artifact" provenance))));
      lifecycle_status = text_of (member "lifecycle_status" e.others);
    }

-- the decision on an event, under a policy
unfoldable pub decide : List DispositionRow → SyncAdmissionPolicyId → EventRow → AdmissionDecision
decide rows policy r =
    let meta = resolve_sync_admission_meta rows r.event_json in
    (evaluate_sync_admission
      (record {
        event_type = r.event_type;
        disposition = meta.disposition;
        lifecycle_status = meta.lifecycle_status;
      })
      policy).decision
