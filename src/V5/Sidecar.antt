-- ===== src/V5/Sidecar.antt =====
-- packages/v5/src/attempts.ts: attempts, incidents and reviews of the draft lane, which live beside
-- the canonical log. The code's objects are shared: an attempt that is changed is changed in the
-- map. A call that throws changes nothing, since it throws before it writes.
pub mod Runs
mod Tests
use carpe_os.Common.{
  ℕ, String, Bool, true, false, not, Option, none, some, List, [], ◌∷◌, ◌++◌, str_eq, if◌then◌else◌,
  ◌||◌, Fallible, ok, threw, guard, ◌>>=◌, ◌>>◌,
}
use carpe_os.Common.Text.{◌<>◌, decimal}
use carpe_os.Common.Table.{find, modify}
use carpe_os.Json.{Value, str, object, end, field}
use carpe_os.V5.Jcs.{digest_sha256}

pub data AttemptStatus : Type 0 where
  prepared dispatched succeeded failed timeout ambiguous reconciled : AttemptStatus

abbrev pub status_text : AttemptStatus → String
status_text prepared = "prepared"
status_text dispatched = "dispatched"
status_text succeeded = "succeeded"
status_text failed = "failed"
status_text timeout = "timeout"
status_text ambiguous = "ambiguous"
status_text reconciled = "reconciled"

pub record AttemptRecord : Type 0 where
  pub attempt_id : String
  pub run_scope_key : String
  pub run_ordinal : ℕ
  pub status : AttemptStatus
  pub route_digest : String
  pub dispatched_at : Option String
  pub finished_at : Option String
  pub result : Option Value
  pub reconciliation_receipt : Option String

pub data ReviewDecision : Type 0 where
  accept_draft : (reviewer_id at : String) → ReviewDecision
  reject rollback : (reviewer_id at reason_code : String) → ReviewDecision

pub data IncidentKind : Type 0 where
  dispatch_timeout provider_failure ambiguous_result kill_switch budget : IncidentKind

pub record IncidentRecord : Type 0 where
  pub incident_id : String
  pub attempt_id : Option String
  pub kind : IncidentKind
  pub at : String
  pub details_digest : String

pub record SidecarState : Type 0 where
  pub attempts : List AttemptRecord
  pub reviews : List ReviewDecision
  pub incidents : List IncidentRecord
  pub dispatched_keys : List String
  pub kill_provider : Bool
  pub kill_escalation : Bool
  pub v5_enabled : Bool

unfoldable pub create_sidecar : Bool → SidecarState
create_sidecar enabled = record {
  attempts = [];
  reviews = [];
  incidents = [];
  dispatched_keys = [];
  kill_provider = false;
  kill_escalation = false;
  v5_enabled = enabled;
}

abbrev pub attempt_key : AttemptRecord → String
attempt_key a = a.attempt_id

-- `attempts.set(id, record)`
unfoldable pub put_attempt : AttemptRecord → List AttemptRecord → List AttemptRecord
put_attempt a [] = a ∷ []
put_attempt a (b ∷ bs) = if str_eq b.attempt_id a.attempt_id then a ∷ bs else b ∷ put_attempt a bs

-- the change of an attempt that the map shares
abbrev pub set_attempt : AttemptRecord → SidecarState → SidecarState
set_attempt a s = record s { attempts = modify attempt_key a.attempt_id (λ _. a) s.attempts }

abbrev pub get_attempt : SidecarState → String → Fallible AttemptRecord
get_attempt s id = elim (find attempt_key id s.attempts) [
  | none ↦ threw ("unknown attempt: " <> id)
  | some a ↦ ok a
]

unfoldable pub has_key : String → List String → Bool
has_key k [] = false
has_key k (j ∷ js) = str_eq j k || has_key k js

unfoldable pub prepare_attempt :
    SidecarState
    → (attempt_id run_scope_key : String) (run_ordinal : ℕ) (route_digest : String)
    → Fallible (AttemptRecord × SidecarState)
prepare_attempt s id scope ordinal route =
    let a : AttemptRecord = record {
      attempt_id = id;
      run_scope_key = scope;
      run_ordinal = ordinal;
      status = prepared;
      route_digest = route;
      dispatched_at = none;
      finished_at = none;
      result = none;
      reconciliation_receipt = none;
    } in
    if s.v5_enabled
    then ok (a, record s { attempts = put_attempt a s.attempts })
    else threw "V5 is opt-in and currently disabled"

abbrev pub is_prepared : AttemptStatus → Bool
is_prepared prepared = true
is_prepared _ = false

-- `${run_scope_key}|${run_ordinal}|${route_digest}`
unfoldable pub dispatch_key : AttemptRecord → String
dispatch_key a = a.run_scope_key <> "|" <> decimal a.run_ordinal <> "|" <> a.route_digest

-- what a dispatch returns: the attempt, or the incident that stopped it
pub data Dispatch : Type 0 where
  sent : AttemptRecord → Dispatch
  stopped : IncidentRecord → Dispatch

abbrev pub push_incident : IncidentRecord → SidecarState → SidecarState
push_incident i s = record s { incidents = s.incidents ++ i ∷ [] }

pub data Outcome : Type 0 where
  was_succeeded was_failed was_timeout was_ambiguous : Outcome

abbrev pub outcome_status : Outcome → AttemptStatus
outcome_status was_succeeded = succeeded
outcome_status was_failed = failed
outcome_status was_timeout = timeout
outcome_status was_ambiguous = ambiguous

abbrev pub outcome_incident : Outcome → Option IncidentKind
outcome_incident was_succeeded = none
outcome_incident was_failed = some provider_failure
outcome_incident was_timeout = some dispatch_timeout
outcome_incident was_ambiguous = some ambiguous_result

module _ (sha256_hex : String → String) where
  abbrev pub killed : String → String → IncidentRecord
  killed id at = record {
    incident_id = "inc_" <> id <> "_kill";
    attempt_id = some id;
    kind = kill_switch;
    at = at;
    details_digest =
        digest_sha256 sha256_hex
          (object (field "kind" (str "kill_switch") (field "attempt_id" (str id) end)));
  }

  abbrev pub duplicate : String → String → String → IncidentRecord
  duplicate id key at = record {
    incident_id = "inc_" <> id <> "_dup";
    attempt_id = some id;
    kind = ambiguous_result;
    at = at;
    details_digest =
        digest_sha256 sha256_hex
          (object (field "kind" (str "duplicate_dispatch") (field "key" (str key) end)));
  }

  -- what happens to an attempt that was found
  unfoldable pub dispatch_found :
      SidecarState → String → String → AttemptRecord → Fallible (Dispatch × SidecarState)
  dispatch_found s id at a =
      if not (is_prepared a.status)
      then threw ("attempt not prepared: " <> status_text a.status)
      else if has_key (dispatch_key a) s.dispatched_keys
      then ok (
        stopped (duplicate id (dispatch_key a) at),
        set_attempt (record a { status = ambiguous })
            (push_incident (duplicate id (dispatch_key a) at) s),
      )
      else ok (
        sent (record a { status = dispatched; dispatched_at = some at }),
        set_attempt (record a { status = dispatched; dispatched_at = some at })
            (record s { dispatched_keys = dispatch_key a ∷ s.dispatched_keys }),
      )

  unfoldable pub dispatch_attempt :
      SidecarState → (attempt_id at : String) → Fallible (Dispatch × SidecarState)
  dispatch_attempt s id at =
      if s.kill_provider
      then ok (stopped (killed id at), push_incident (killed id at) s)
      else (get_attempt s id >>= λ a. dispatch_found s id at a)

  abbrev push_outcome :
      Option IncidentKind → Outcome → String → String → SidecarState → SidecarState
  push_outcome none o id at s = s
  push_outcome (some kind) o id at s =
      push_incident
        (record {
          incident_id = "inc_" <> id <> "_" <> status_text (outcome_status o);
          attempt_id = some id;
          kind = kind;
          at = at;
          details_digest = digest_sha256 sha256_hex (
              object (
                field "kind" (str (status_text (outcome_status o)))
                  (field "attempt_id" (str id) end)));
        })
        s

  unfoldable pub finish_attempt :
      SidecarState
      → (attempt_id : String) → Outcome
      → (at : String) → (result : Option Value) → Fallible (AttemptRecord × SidecarState)
  finish_attempt s id o at result = get_attempt s id >>= λ a.
      let done = record a { status = outcome_status o; finished_at = some at; result = result } in
      ok (done, push_outcome (outcome_incident o) o id at (set_attempt done s))

  unfoldable pub reconcile_attempt :
      SidecarState → (attempt_id at : String) → Fallible (AttemptRecord × SidecarState)
  reconcile_attempt s id at = get_attempt s id >>= λ a.
      let done = record a {
        status = reconciled;
        reconciliation_receipt = some (
            digest_sha256 sha256_hex (
              object (
                field "schema" (str "carpeos.attempt-reconciliation/v1") (
                  field "attempt_id" (str id)
                    (field "status" (str (status_text a.status)) (field "at" (str at) end))))));
      } in
      ok (done, set_attempt done s)

unfoldable pub record_review : SidecarState → ReviewDecision → SidecarState
record_review s d = record s { reviews = s.reviews ++ d ∷ [] }

unfoldable pub rollback_v5 : SidecarState → (reviewer_id at : String) → SidecarState
unfolding record_review
rollback_v5 s reviewer at = record (record_review s (rollback reviewer at "operator_rollback")) {
  v5_enabled = false;
  kill_provider = true;
}

unfoldable pub is_v5_off : SidecarState → Bool
is_v5_off s = not s.v5_enabled
