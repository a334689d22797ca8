-- ===== src/SyncClient/Synced.antt =====
-- packages/sync-client/src/index.ts and apps/carpeos-sync-worker/src/index.ts: a device that pulls from
-- the worker.
use carpe_os.Common.{
  ℕ, zero, suc, ◌+◌, ◌≡◌, refl, sym, ap, ap₂, ◌∙◌, String, Bool, Option, none, some, List, [], ◌∷◌,
  ◌++◌, eq_refl, arith, All, length, take, drop,
}
use native.Mathlib.Nat.{zero-add, suc-add}
use carpe_os.Common.Table.{find, find-append, find-modify_self}
use carpe_os.SyncWorker.Store.{Env}
use carpe_os.SyncWorker.Pull.{PullRow, events_of, erasures_of, final_sequence, page_of, zone_log}
use carpe_os.SyncWorker.Sequences.{Numbered}
use carpe_os.SyncWorker.Pages.{final-Numbered}
use carpe_os.LocalStore.Store.{CursorRow, LocalStore, cursor_key, get_event}
use carpe_os.LocalStore.Inbox.{cursor_or_start, get_sync_cursor, upsert_cursor, persist_sync_cursor}
use carpe_os.SyncClient.Pull.{
  max_pulled_sequence, max_pulled_events, max_pulled_erasures, sequence_after,
}
use carpe_os.SyncClient.Held.{HoldsRow, Extends, All-Extends}

cursor-upsert :
    (o : Option CursorRow) (r : CursorRow) (rs : List CursorRow)
    → find cursor_key r.trust_zone_id rs ≡ o
    → find cursor_key r.trust_zone_id (upsert_cursor o r rs) ≡ some r
unfolding upsert_cursor
cursor-upsert none r rs h =
    find-append cursor_key r.trust_zone_id rs r h ∙ rw (eq_refl r.trust_zone_id) refl
cursor-upsert (some q) r rs h = find-modify_self cursor_key r.trust_zone_id (λ _. r) rs refl h

-- the cursor that was written is the one that is read
pub get-persist :
    (s : LocalStore) (after : ℕ) (cursor : Option String)
    → (get_sync_cursor (persist_sync_cursor s after cursor)).after_sequence ≡ after
unfolding get_sync_cursor persist_sync_cursor
get-persist s after cursor =
    ap (λ o. (cursor_or_start s.trust_zone_id o).after_sequence)
      (cursor-upsert (find cursor_key s.trust_zone_id s.cursors)
        (record { trust_zone_id = s.trust_zone_id; after_sequence = after; cursor = cursor })
        s.cursors refl)

pub sequence-page :
    (c : CursorRow) (rows : List PullRow) (more : Bool)
    → Numbered c.after_sequence rows
    → sequence_after (page_of rows more) c ≡ c.after_sequence + length rows
unfolding final_sequence max_pulled_sequence max_pulled_events max_pulled_erasures events_of
    erasures_of
sequence-page c [] more h = omega arith
sequence-page c (r ∷ rs) more h = rw (final-Numbered c.after_sequence r rs h) refl

take-nil : (k : ℕ) → take {A = PullRow} k [] ≡ []
take-nil zero = refl
take-nil (suc k) = refl

take-length-take : (l : ℕ) (rs : List PullRow) → take (length (take l rs)) rs ≡ take l rs
take-length-take zero rs = refl
take-length-take (suc l) [] = refl
take-length-take (suc l) (r ∷ rs) = ap (λ qs. r ∷ qs) (take-length-take l rs)

-- `l` more than the first `c`, as far as there are any
pub take-add :
    (c l : ℕ) (rs : List PullRow)
    → take (c + length (take l (drop c rs))) rs ≡ take c rs ++ take l (drop c rs)
take-add zero l rs = rw (zero-add (length (take l rs))) (take-length-take l rs)
take-add (suc c) l [] =
    take-nil (suc c + length (take l (drop {A = PullRow} (suc c) []))) ∙ sym (take-nil l)
take-add (suc c) l (r ∷ rs) =
    rw (suc-add c (length (take l (drop c rs)))) (ap (λ qs. r ∷ qs) (take-add c l rs))

-- the store has every record of the zone up to its cursor
abbrev pub IsSynced : Env → String → LocalStore → Type 0
IsSynced env zone s =
    (s.trust_zone_id ≡ zone)
    × All (HoldsRow s) (take (get_sync_cursor s).after_sequence (zone_log zone env))

pub cursor_kept : {s t : LocalStore} → Extends s t → get_sync_cursor t ≡ get_sync_cursor s
unfolding get_sync_cursor
cursor_kept x =
    ap₂ (λ z cs. cursor_or_start z (find cursor_key z cs)) (x.zone_kept) (x.cursors_kept)

pub Extends-IsSynced :
    (env : Env) (zone : String) (s t : LocalStore)
    → Extends s t
    → IsSynced env zone s
    → IsSynced env zone t
Extends-IsSynced env zone s t x (z, h) = (
  x.zone_kept ∙ z,
  rw (cursor_kept x)
      (All-Extends (take (get_sync_cursor s).after_sequence (zone_log zone env)) x h),
)

pub persist-held :
    (s : LocalStore) (after : ℕ) (cursor : Option String) (rs : List PullRow)
    → All (HoldsRow s) rs
    → All (HoldsRow (persist_sync_cursor s after cursor)) rs
unfolding persist_sync_cursor get_event
persist-held s after cursor rs h = h
