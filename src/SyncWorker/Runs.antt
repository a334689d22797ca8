-- ===== src/SyncWorker/Runs.antt =====
-- apps/carpeos-sync-worker/src/index.ts: pushes that interleave. A handler runs as a whole, or it has
-- found no earlier request, has passed its checks, and commits after other pushes have.
use carpe_os.Common.{
  ℕ, suc, ◌≤◌, ◌≡◌, refl, sym, ap, ◌∙◌, String, true, ◌&&◌, Option, none, List, [], ◌∷◌, ◌++◌,
  str_eq, eq_iff, if◌then◌else◌, arith, ok,
}
use mathlib.Core.List.{append_assoc, append-nil}
use carpe_os.Schema.{SyncPushRequest}
use carpe_os.SyncWorker.Store.{Env, Response}
use carpe_os.SyncWorker.Receipts.{validate_single_record_push}
use carpe_os.SyncWorker.Push.{Host, commit_push, handle_push}
use carpe_os.SyncWorker.Pull.{PullRow, zone_log}
use carpe_os.SyncWorker.Sequences.{IsSequenced}
use carpe_os.SyncWorker.Commits.{
  is_accepted, promised_rows, IsHeld, Keeps, commit_push-Keeps, handle_push_refines,
}

pub data PushStep : Type 0 where
  whole : (authorization : Option String) → SyncPushRequest → PushStep
  late : (request : SyncPushRequest) → validate_single_record_push request ≡ none → PushStep

abbrev pub request_in : PushStep → SyncPushRequest
request_in (whole authorization request) = request
request_in (late request valid) = request

module _ (host : Host) where
  abbrev pub step : Env → PushStep → Response × Env
  step env (whole authorization request) = handle_push host env authorization (ok request)
  step env (late request valid) = commit_push env request

  pub run : Env → List PushStep → Env
  run env [] = env
  run env (s ∷ ss) = run (step env s).1 ss

  -- what the answers of a run promise for a zone
  unfoldable pub promised : Env → List PushStep → String → List PullRow
  promised env [] zone = []
  promised env (s ∷ ss) zone =
      promised_rows env (request_in s) (step env s).0 zone ++ promised (step env s).1 ss zone

  pub step-Keeps :
      (env : Env) (s : PushStep) → IsSequenced env → Keeps env (request_in s) (step env s)
  step-Keeps env (whole authorization request) full =
      handle_push_refines host env authorization request full
  step-Keeps env (late request valid) full = commit_push-Keeps env request full valid

  -- However the pushes of a run interleave, at its end the records of every zone have the numbers
  -- from one on without a gap, and are those before the run and then those that the answers of the
  -- run have accepted, in the order of the commits. The zones must be numbered before the run.
  pub run_refines :
      (env : Env) (ss : List PushStep) (zone : String)
      → IsSequenced env
      → IsSequenced (run env ss)
        × (zone_log zone (run env ss) ≡ zone_log zone env ++ promised env ss zone)
  unfolding run promised
  run_refines env [] zone full = (full, sym (append-nil (zone_log zone env)))
  run_refines env (s ∷ ss) zone full =
      let k = step-Keeps env s full in
      let rest = run_refines (step env s).1 ss zone (k.sequenced) in
      (
        rest.0,
        rest.1
            ∙ ap (λ l. l ++ promised (step env s).1 ss zone) (k.appended zone)
            ∙ append_assoc (zone_log zone env)
                (promised_rows env (request_in s) (step env s).0 zone)
                (promised (step env s).1 ss zone),
      )

  -- how many answers of a run accept the key in the zone
  unfoldable pub acceptances : String → String → Env → List PushStep → ℕ
  acceptances zone key env [] = 0
  acceptances zone key env (s ∷ ss) =
      let rest = acceptances zone key (step env s).1 ss in
      if is_accepted (step env s).0
        && str_eq (request_in s).trust_zone_id zone
        && str_eq (request_in s).idempotency_key key
      then suc rest
      else rest

  none_held :
      (zone key : String) (env : Env) (ss : List PushStep)
      → IsSequenced env
      → IsHeld zone key env
      → acceptances zone key env ss ≡ 0
  unfolding acceptances
  none_held zone key env [] full h = refl
  none_held zone key env (s ∷ ss) full h =
      let k = step-Keeps env s full in
      let rest = none_held zone key (step env s).1 ss (k.sequenced) (k.kept zone key h) in
      ground (
        arith,
        eq_iff (request_in s).trust_zone_id zone,
        eq_iff (request_in s).idempotency_key key,
        k.fresh,
        rest,
      )

  -- a record that is accepted under a key is the last under it
  accepted_last :
      (zone key : String) (env : Env) (s : PushStep) (ss : List PushStep)
      → IsSequenced env
      → is_accepted (step env s).0 ≡ true
      → (request_in s).trust_zone_id ≡ zone
      → (request_in s).idempotency_key ≡ key
      → acceptances zone key (step env s).1 ss ≡ 0
  accepted_last zone key env s ss full a p q =
      let k = step-Keeps env s full in
      none_held zone key (step env s).1 ss (k.sequenced) (rw (sym p, sym q) (k.held a))

  -- However the pushes of a run interleave, retries and commits of requests that were checked
  -- earlier included, at most one of its answers accepts a record under one idempotency key of a
  -- zone. The zones must be numbered before the run.
  pub run_accepts_once :
      (zone key : String) (env : Env) (ss : List PushStep)
      → IsSequenced env
      → acceptances zone key env ss ≤ 1
  unfolding acceptances
  run_accepts_once zone key env [] full = omega arith
  run_accepts_once zone key env (s ∷ ss) full =
      let k = step-Keeps env s full in
      let rest = run_accepts_once zone key (step env s).1 ss (k.sequenced) in
      ground (
        arith,
        eq_iff (request_in s).trust_zone_id zone,
        eq_iff (request_in s).idempotency_key key,
        accepted_last zone key env s ss full,
        rest,
      )
