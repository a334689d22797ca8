-- ===== src/V5/Sidecar/Tests.antt =====
-- Concrete sequences of calls of packages/v5/src/attempts.ts.
use carpe_os.Common.{◌≡◌, String, true, none, List, [], ◌∷◌, threw}
use carpe_os.Common.Text.{◌<>◌}
use carpe_os.V5.Sidecar.{
  create_sidecar, SidecarState, rollback_v5, is_v5_off, prepare_attempt, was_timeout,
}
use carpe_os.V5.Sidecar.Runs.{
  Event, prepare, dispatch, finish, run, sent_from, IsNodup, dispatch_once, rollback_final,
}

abbrev hash : String → String
hash s = s <> "#"

abbrev events : List Event
events =
    prepare "a1" "scope_1" 0 "route"
    ∷ dispatch "a1" "t1"
    ∷ finish "a1" was_timeout "t2" none
    ∷ prepare "a2" "scope_1" 0 "route"
    ∷ dispatch "a2" "t3"
    ∷ []

abbrev fresh : SidecarState
fresh = create_sidecar true

dispatch_once_example :
    IsNodup (sent_from hash fresh events [])
    × (sent_from hash fresh events [] ≡ (run hash fresh events).dispatched_keys)
dispatch_once_example = dispatch_once hash true events

rollback_final_example :
    let s = run hash (rollback_v5 fresh "r" "t0") events in
    (sent_from hash (rollback_v5 fresh "r" "t0") events [] ≡ [])
    × (is_v5_off s ≡ true)
    × (prepare_attempt s "a3" "scope_2" 1 "route" ≡ threw "V5 is opt-in and currently disabled")
rollback_final_example = rollback_final hash fresh "r" "t0" events "a3" "scope_2" 1 "route"
