-- ===== src/Capture/RunLedger/Links.antt =====
-- Linking events to a run of packages/capture/src/run-ledger.ts.
use carpe_os.Common.{◌≡◌, refl, ap, ◌∙◌, String, ◌||◌, List, [], ◌∷◌, ◌++◌, arith}
use carpe_os.Capture.RunLedger.{RunLedgerEntry, link_events_to_run}
use carpe_os.Capture.RunLedger.Sets.{
  is_member, IsAscending, unique_sorted-IsAscending, is_member-unique_sorted, ascending_unique,
}

is_member-append :
    (k : String) (xs ys : List String) → is_member k (xs ++ ys) ≡ (is_member k xs || is_member k ys)
unfolding is_member
is_member-append k [] ys = refl
is_member-append k (x ∷ xs) ys = ground (arith, is_member-append k xs ys)

-- Linking keeps the event identifiers of a run ascending, without duplicates, and a run has the
-- events that it had and those that are linked, and no others.
pub link_events_to_run-members :
    (e : RunLedgerEntry) (ids : List String) (k : String)
    → IsAscending (link_events_to_run e ids).event_ids
      × (is_member k (link_events_to_run e ids).event_ids
          ≡ (is_member k e.event_ids || is_member k ids))
unfolding link_events_to_run
link_events_to_run-members e ids k = (
  unique_sorted-IsAscending (e.event_ids ++ ids),
  is_member-unique_sorted k (e.event_ids ++ ids) ∙ is_member-append k e.event_ids ids,
)

members_twice :
    (e : RunLedgerEntry) (a b : List String) (k : String)
    → is_member k (link_events_to_run (link_events_to_run e a) b).event_ids
      ≡ (is_member k e.event_ids || is_member k a || is_member k b)
members_twice e a b k = ground (
  arith,
  (link_events_to_run-members (link_events_to_run e a) b k).1,
  (link_events_to_run-members e a k).1,
)

-- The order in which batches of events are linked makes no difference, nor whether they are linked
-- one after the other or at once.
pub link_events_to_run_comm :
    (e : RunLedgerEntry) (a b : List String)
    → (link_events_to_run (link_events_to_run e a) b
        ≡ link_events_to_run (link_events_to_run e b) a)
      × (link_events_to_run (link_events_to_run e a) b ≡ link_events_to_run e (a ++ b))
unfolding link_events_to_run
link_events_to_run_comm e a b =
    let twice = link_events_to_run (link_events_to_run e a) b in
    let other = link_events_to_run (link_events_to_run e b) a in
    let once = link_events_to_run e (a ++ b) in
    (
      ap (λ ids. record e { event_ids = ids })
          (ascending_unique twice.event_ids other.event_ids (unique_sorted-IsAscending _)
            (unique_sorted-IsAscending _)
            (λ k. ground (arith, members_twice e a b k, members_twice e b a k))),
      ap (λ ids. record e { event_ids = ids })
          (ascending_unique twice.event_ids once.event_ids (unique_sorted-IsAscending _)
            (unique_sorted-IsAscending _)
            (λ k. ground (
              arith,
              members_twice e a b k,
              (link_events_to_run-members e (a ++ b) k).1,
              is_member-append k a b,
            ))),
    )
