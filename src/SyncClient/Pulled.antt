-- ===== src/SyncClient/Pulled.antt =====
-- packages/sync-client/src/index.ts: what a page of a pull leaves in the store, whatever the server is.
use carpe_os.Common.{◌≡◌, Fallible, ok, threw, All}
use carpe_os.Schema.{SyncPullResult}
use carpe_os.LocalStore.Store.{LocalStore}
use carpe_os.LocalStore.Inbox.{get_sync_cursor}
use carpe_os.SyncClient.Pull.{PullPageResult, sequence_after}
use carpe_os.SyncClient.Held.{HoldsEvent, HoldsErasure, Extends}

-- what is left after a page: where it threw, all that was there and the cursor as it was; where it
-- returned, all that the answer brought, and the cursor where the page says
abbrev pub Pulled :
    LocalStore → Fallible SyncPullResult → Fallible PullPageResult × LocalStore → Type 0
Pulled s answer (threw m, s') = Extends s s' × (get_sync_cursor s' ≡ get_sync_cursor s)
Pulled s answer (ok page, s') =
    (r : SyncPullResult) × (answer ≡ ok r)
    × All (HoldsEvent s') r.events
    × All (HoldsErasure s') r.erasures
    × (page.after_sequence ≡ sequence_after r (get_sync_cursor s))
    × ((get_sync_cursor s').after_sequence ≡ page.after_sequence)
