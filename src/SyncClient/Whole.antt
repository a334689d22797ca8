-- ===== src/SyncClient/Whole.antt =====
-- packages/sync-client/src/index.ts, apps/carpeos-sync-worker/src/index.ts and the loop over pages of
-- apps/carpeos-cli/src/index.ts: after enough pages a device has the whole zone.
use carpe_os.Common.{
  ℕ, zero, suc, ◌+◌, ◌-◌, ◌*◌, ◌≤◌, ◌≡◌, refl, ap, subst, ◌∙◌, String, Bool, true, false, Option,
  List, [], ◌∷◌, arith, All, length, take, drop, ltb, Fallible, ok, threw,
}
use carpe_os.Schema.{SyncPullRequest}
use carpe_os.SyncWorker.Store.{Env}
use carpe_os.SyncWorker.Push.{Host as WorkerHost}
use carpe_os.SyncWorker.Pull.{PullRow, zone_log}
use carpe_os.SyncWorker.Sequences.{IsFilledIn}
use carpe_os.SyncWorker.Pages.{IsRecorded}
use carpe_os.LocalStore.Store.{LocalStore}
use carpe_os.LocalStore.Inbox.{Host, get_sync_cursor}
use carpe_os.SyncClient.Pull.{
  ProtectedValueDownload, PullPageResult, pull_pages, join_pages, go_on, after_page,
}
use carpe_os.SyncClient.Held.{HoldsRow}
use carpe_os.SyncClient.Synced.{IsSynced}
use carpe_os.SyncClient.Paging.{Advances, served, pull_page-Advances}

length-drop : (c : ℕ) (xs : List PullRow) → length (drop c xs) ≡ length xs - c
length-drop zero xs = omega arith
length-drop (suc c) [] = omega arith
length-drop (suc c) (x ∷ xs) = omega (arith, length-drop c xs)

length-take_min : (k : ℕ) (xs : List PullRow) → k ≤ length xs → length (take k xs) ≡ k
length-take_min zero xs h = refl
length-take_min (suc k) [] h = absurd (omega arith)
length-take_min (suc k) (x ∷ xs) h = ap suc (length-take_min k xs (omega arith))

take_all : (k : ℕ) (xs : List PullRow) → length xs ≤ k → take k xs ≡ xs
take_all zero [] h = refl
take_all zero (x ∷ xs) h = absurd (omega arith)
take_all (suc k) [] h = refl
take_all (suc k) (x ∷ xs) h = ap (λ ys. x ∷ ys) (take_all k xs (omega arith))

-- how far the pages still to come reach
more_pages :
    (n limit from total after : ℕ)
    → total ≤ from + suc n * limit
    → after ≡ from + limit
    → total ≤ after + n * limit
more_pages n limit from total after h e = grind arith

-- the store is synced, and, when nothing has thrown, it has every record of the zone
pub record Completes (env : Env) (zone : String)
    (answer : Fallible (List PullPageResult) × LocalStore) : Type 0 where
  pub synced : IsSynced env zone (answer.1)
  pub whole :
      (pages : List PullPageResult)
      → answer.0 ≡ ok pages
      → All (HoldsRow (answer.1)) (zone_log zone env)

join-Completes :
    (env : Env) (zone : String) (page : PullPageResult)
    (answer : Fallible (List PullPageResult) × LocalStore)
    → Completes env zone answer
    → Completes env zone (join_pages page answer)
join-Completes env zone page (threw m, s) c = record { synced = c.synced; whole = λ pages h. cc }
join-Completes env zone page (ok ps, s) c = record {
  synced = c.synced;
  whole = λ pages h. c.whole ps refl;
}

cursor_at_end :
    (env : Env) (zone : String) (s : LocalStore)
    → length (zone_log zone env) ≤ (get_sync_cursor s).after_sequence
    → IsSynced env zone s
    → All (HoldsRow s) (zone_log zone env)
cursor_at_end env zone s h synced =
    subst (All (HoldsRow s)) (take_all (get_sync_cursor s).after_sequence (zone_log zone env) h)
      (synced.1)

go_on-Completes :
    (env : Env) (zone : String) (from limit n : ℕ) (more : Bool) (page : PullPageResult)
    (s : LocalStore) (rest : LocalStore → Fallible (List PullPageResult) × LocalStore)
    → more ≡ ltb limit (length (drop from (zone_log zone env)))
    → (get_sync_cursor s).after_sequence
      ≡ from + length (take limit (drop from (zone_log zone env)))
    → length (zone_log zone env) ≤ from + suc n * limit
    → IsSynced env zone s
    → (length (zone_log zone env) ≤ (get_sync_cursor s).after_sequence + n * limit
        → Completes env zone (rest s))
    → Completes env zone (go_on more page s rest)
go_on-Completes env zone from limit n true page s rest e moved h synced ih =
    join-Completes env zone page (rest s) (
      ih (
        more_pages n limit from (length (zone_log zone env)) (get_sync_cursor s).after_sequence h (
          moved
          ∙ ap (λ k. from + k)
              (length-take_min limit (drop from (zone_log zone env)) (ground arith)))))
go_on-Completes env zone from limit n false page s rest e moved h synced ih = record {
  synced = synced;
  whole = λ pages k.
      cursor_at_end env zone s
        (ground (
          arith,
          length-drop from (zone_log zone env),
          ap length (take_all limit (drop from (zone_log zone env)) (ground arith)),
        ))
        synced;
}

module _ (worker : WorkerHost) (env : Env) (authorization : Option String) (host : Host)
    (values : (id zone digest : String) → Fallible ProtectedValueDownload)
    (errors : SyncPullRequest → Option String) (zone : String) (limit : ℕ)
    (full : IsFilledIn zone env) (recorded : All IsRecorded (zone_log zone env)) where
  abbrev log : List PullRow
  log = zone_log zone env

  after_page-Completes :
      (n : ℕ) (s : LocalStore) (rest : LocalStore → Fallible (List PullPageResult) × LocalStore)
      (answer : Fallible PullPageResult × LocalStore)
      → length log ≤ (get_sync_cursor s).after_sequence + suc n * limit
      → Advances env zone
          (get_sync_cursor s).after_sequence
          (take limit (drop (get_sync_cursor s).after_sequence log))
          (ltb limit (length (drop (get_sync_cursor s).after_sequence log)))
          answer
      → ((t : LocalStore)
          → IsSynced env zone t
          → length log ≤ (get_sync_cursor t).after_sequence + n * limit
          → Completes env zone (rest t))
      → Completes env zone (after_page rest answer)
  after_page-Completes n s rest (threw m, t) h a ih = record {
    synced = a.synced;
    whole = λ pages k. cc;
  }
  after_page-Completes n s rest (ok page, t) h a ih =
      let r = a.reached page refl in
      go_on-Completes env zone (get_sync_cursor s).after_sequence limit n page.has_more page t rest
        (r.1) (r.0) h (a.synced) (ih t (a.synced))

  -- A device that has every record of a zone up to its cursor pulls the zone page by page from the
  -- worker. Whatever throws on the way, it has every record up to its cursor still; and if nothing
  -- throws, as many pages as it takes to cover the zone from the cursor on leave it with every
  -- record of the zone. The zone must be numbered and hold no time that is not after the year 0.
  pub pull_pages-Completes :
      (max_pages : ℕ) (s : LocalStore)
      → IsSynced env zone s
      → length log ≤ (get_sync_cursor s).after_sequence + max_pages * limit
      → Completes env zone
          (pull_pages host (served worker env authorization values errors) max_pages limit s)
  unfolding pull_pages
  pull_pages-Completes zero s synced h = record {
    synced = synced;
    whole = λ pages k. cursor_at_end env zone s (omega arith) synced;
  }
  pull_pages-Completes (suc n) s synced h =
      after_page-Completes n s _ _ h
        (pull_page-Advances worker env authorization host values errors zone limit full recorded s
          synced)
        (λ t k m. pull_pages-Completes n t k m)
