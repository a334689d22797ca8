-- ===== src/V5/Sidecar/Runs.antt =====
-- Sequences of calls of packages/v5/src/attempts.ts: what is sent, and what stops it.
use carpe_os.Common.{
  ℕ, ◌≡◌, refl, ◌∙◌, String, Bool, true, false, Option, List, [], ◌∷◌, ◌++◌, arith, if◌then◌else◌,
  Fallible, ok, threw, ◌>>=◌, Bool-cases, inl, inr, subst, sym,
}
use carpe_os.Json.{Value}
use carpe_os.V5.Sidecar.{
  SidecarState, create_sidecar, AttemptRecord, ReviewDecision, Dispatch, sent, stopped, Outcome,
  has_key, dispatch_key, is_prepared, get_attempt, prepare_attempt, dispatch_found,
  dispatch_attempt, push_incident, push_incident, finish_attempt, reconcile_attempt, record_review,
  rollback_v5, is_v5_off, killed,
}

pub data Event : Type 0 where
  prepare : (attempt_id run_scope_key : String) (run_ordinal : ℕ) (route_digest : String) → Event
  dispatch : (attempt_id at : String) → Event
  finish : (attempt_id : String) → Outcome → (at : String) → (result : Option Value) → Event
  reconcile : (attempt_id at : String) → Event
  review : ReviewDecision → Event
  roll_back : (reviewer_id at : String) → Event

abbrev pub state_of : {A : Type 0} → SidecarState → Fallible (A × SidecarState) → SidecarState
state_of s (ok (a, s')) = s'
state_of s (threw e) = s

-- the key of what a dispatch sent
abbrev sent_key : Fallible (Dispatch × SidecarState) → List String
sent_key (ok (sent a, s)) = dispatch_key a ∷ []
sent_key (ok (stopped i, s)) = []
sent_key (threw e) = []

-- a text occurs in none of the others
abbrev pub IsFresh : String → List String → Type 0
IsFresh k ks = has_key k ks ≡ false

abbrev pub IsNodup : List String → Type 0
IsNodup [] = Unit
IsNodup (k ∷ ks) = IsFresh k ks × IsNodup ks

module _ (sha256_hex : String → String) where
  unfoldable pub after : SidecarState → Event → SidecarState
  after s (prepare id scope ordinal route) = state_of s (prepare_attempt s id scope ordinal route)
  after s (dispatch id at) = state_of s (dispatch_attempt sha256_hex s id at)
  after s (finish id o at result) = state_of s (finish_attempt sha256_hex s id o at result)
  after s (reconcile id at) = state_of s (reconcile_attempt sha256_hex s id at)
  after s (review d) = record_review s d
  after s (roll_back reviewer at) = rollback_v5 s reviewer at

  unfoldable pub sent_by : SidecarState → Event → List String
  sent_by s (dispatch id at) = sent_key (dispatch_attempt sha256_hex s id at)
  sent_by s _ = []

  unfoldable pub run : SidecarState → List Event → SidecarState
  run s [] = s
  run s (e ∷ es) = run (after s e) es

  -- the keys that a sequence of calls sends, the last first
  unfoldable pub sent_from : SidecarState → List Event → List String → List String
  sent_from s [] keys = keys
  sent_from s (e ∷ es) keys = sent_from (after s e) es (sent_by s e ++ keys)

  sent_found :
      (s : SidecarState) (id at : String) (a : AttemptRecord)
      → ((state_of s (dispatch_found sha256_hex s id at a)).dispatched_keys
          ≡ sent_key (dispatch_found sha256_hex s id at a) ++ s.dispatched_keys)
        × (IsNodup s.dispatched_keys
            → IsNodup (sent_key (dispatch_found sha256_hex s id at a) ++ s.dispatched_keys))
  unfolding dispatch_found dispatch_key
  sent_found s id at a = elim (Bool-cases (is_prepared a.status)) [
    | inl p ↦ elim (Bool-cases (has_key (dispatch_key a) s.dispatched_keys)) [
      | inl h ↦ rw (p, h) (refl, λ n. n)
      | inr h ↦ rw (p, h) (refl, λ n. (h, n))
    ]
    | inr p ↦ rw p (refl, λ n. n)
  ]

  sent_any :
      (s : SidecarState) (id at : String) (kill : Bool) (found : Fallible AttemptRecord)
      → let r : Fallible (Dispatch × SidecarState) =
          if kill
          then ok (stopped (killed sha256_hex id at), push_incident (killed sha256_hex id at) s)
          else (found >>= λ a. dispatch_found sha256_hex s id at a) in
        ((state_of s r).dispatched_keys ≡ sent_key r ++ s.dispatched_keys)
        × (IsNodup s.dispatched_keys → IsNodup (sent_key r ++ s.dispatched_keys))
  sent_any s id at true found = (refl, λ n. n)
  sent_any s id at false (ok a) = sent_found s id at a
  sent_any s id at false (threw e) = (refl, λ n. n)

  -- One call: the keys that were ever sent are the keys that the state remembers, in order, and a
  -- key that is sent is new.
  after-keys :
      (s : SidecarState) (e : Event)
      → ((after s e).dispatched_keys ≡ sent_by s e ++ s.dispatched_keys)
        × (IsNodup s.dispatched_keys → IsNodup (sent_by s e ++ s.dispatched_keys))
  unfolding after sent_by prepare_attempt dispatch_attempt finish_attempt reconcile_attempt
      record_review rollback_v5
  after-keys s (prepare id scope ordinal route) = ground arith
  after-keys s (dispatch id at) = sent_any s id at s.kill_provider (get_attempt s id)
  after-keys s (finish id o at result) = ground arith
  after-keys s (reconcile id at) = ground arith
  after-keys s (review d) = ground arith
  after-keys s (roll_back reviewer at) = ground arith

  run-keys :
      (s : SidecarState) (es : List Event)
      → IsNodup s.dispatched_keys
      → ((run s es).dispatched_keys ≡ sent_from s es s.dispatched_keys)
        × IsNodup (run s es).dispatched_keys
  unfolding run sent_from
  run-keys s [] n = (refl, n)
  run-keys s (e ∷ es) n =
      let (keys, fresh) = after-keys s e in
      let (ks, ok_run) = run-keys (after s e) es (rw keys (fresh n)) in
      (ks ∙ rw⁻¹ keys refl, ok_run)

  -- Whatever the sequence of calls on a fresh sidecar, no two dispatches send the same run scope,
  -- ordinal and route: the keys of what is sent, in the order of the calls, the last first, have no
  -- duplicates, and they are the keys that the state remembers at the end.
  pub dispatch_once :
      (enabled : Bool) (es : List Event)
      → IsNodup (sent_from (create_sidecar enabled) es [])
        × (sent_from (create_sidecar enabled) es []
            ≡ (run (create_sidecar enabled) es).dispatched_keys)
  unfolding create_sidecar
  dispatch_once enabled es =
      let (ks, n) = run-keys (create_sidecar enabled) es tt in (subst IsNodup ks n, sym ks)

  -- off: no new attempt, no dispatch
  abbrev IsOff : SidecarState → Type 0
  IsOff s = (s.v5_enabled ≡ false) × (s.kill_provider ≡ true)

  after-IsOff : (s : SidecarState) (e : Event) → IsOff s → IsOff (after s e) × (sent_by s e ≡ [])
  unfolding after sent_by prepare_attempt dispatch_attempt finish_attempt reconcile_attempt
      record_review rollback_v5
  after-IsOff s (prepare id scope ordinal route) off = ground arith
  after-IsOff s (dispatch id at) off = ground arith
  after-IsOff s (finish id o at result) off = ground arith
  after-IsOff s (reconcile id at) off = ground arith
  after-IsOff s (review d) off = ground arith
  after-IsOff s (roll_back reviewer at) off = ground arith

  rollback_v5-IsOff : (s : SidecarState) (reviewer at : String) → IsOff (rollback_v5 s reviewer at)
  unfolding rollback_v5 record_review
  rollback_v5-IsOff s reviewer at = (refl, refl)

  run-IsOff :
      (s : SidecarState) (es : List Event) (keys : List String)
      → IsOff s
      → IsOff (run s es) × (sent_from s es keys ≡ keys)
  unfolding run sent_from
  run-IsOff s [] keys off = (off, refl)
  run-IsOff s (e ∷ es) keys off =
      let (off', silent) = after-IsOff s e off in rw silent (run-IsOff (after s e) es keys off')

  -- From any state, after a rollback no later sequence of calls dispatches anything, the lane
  -- stays off, and preparing an attempt is refused at its end.
  pub rollback_final :
      (s : SidecarState) (reviewer at : String) (es : List Event) (id scope : String) (ordinal : ℕ)
      (route : String)
      → let s' = run (rollback_v5 s reviewer at) es in
        (sent_from (rollback_v5 s reviewer at) es [] ≡ [])
        × (is_v5_off s' ≡ true)
        × (prepare_attempt s' id scope ordinal route ≡ threw "V5 is opt-in and currently disabled")
  unfolding is_v5_off prepare_attempt
  rollback_final s reviewer at es id scope ordinal route =
      let ((disabled, killed), silent) =
        run-IsOff (rollback_v5 s reviewer at) es [] (rollback_v5-IsOff s reviewer at) in
      (silent, rw disabled refl, rw disabled refl)
