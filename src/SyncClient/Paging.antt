-- ===== src/SyncClient/Paging.antt =====
-- packages/sync-client/src/index.ts, apps/carpeos-sync-worker/src/index.ts and the loop over pages of
-- apps/carpeos-cli/src/index.ts: pulling a zone, page by page.
use native.Mathlib.Nat.{zero-add}
use carpe_os.Common.{
  ℕ, ◌+◌, ◌≡◌, refl, sym, ap, subst, ◌∙◌, String, Bool, Option, none, some, List, ◌++◌, arith, All,
  All-append, length, take, drop, ltb, if◌then◌else◌, or_else, Fallible, ok, threw,
}
use carpe_os.Schema.{SyncPullRequest, SyncPullResult}
use carpe_os.SyncWorker.Store.{Env}
use carpe_os.SyncWorker.Push.{Host as WorkerHost}
use carpe_os.SyncWorker.Pull.{PullRow, events_of, erasures_of, page_of, zone_log, handle_pull}
use carpe_os.SyncWorker.Sequences.{Numbered, IsFilledIn}
use carpe_os.SyncWorker.Pages.{IsRecorded, take-Numbered, drop-Numbered, pull_page_lem}
use carpe_os.LocalStore.Store.{LocalStore}
use carpe_os.LocalStore.Inbox.{Host, get_sync_cursor, persist_sync_cursor, assert_valid}
use carpe_os.LocalStore.Replays.{then-ok}
use carpe_os.SyncClient.Answers.{read_pull-handle_pull}
use carpe_os.SyncClient.Pull.{
  PullTransport, ProtectedValueDownload, PullPageResult, pull_request, sequence_after, finish_page,
  with_events, with_result, answer_of, pull_page,
}
use carpe_os.SyncClient.Held.{
  HoldsEvent, HoldsErasure, HoldsRow, Extends, Extends-refl, Extends-trans, All-Extends,
  All-HoldsEvent, rows_held, Imports, import_events-Imports, import_erasures-Imports,
}
use carpe_os.SyncClient.Synced.{
  get-persist, sequence-page, take-add, IsSynced, Extends-IsSynced, persist-held,
}

-- the store that a page leaves is synced up to its cursor, and, when nothing has thrown, the cursor
-- has moved by the rows of the page
pub record Advances (env : Env) (zone : String) (from : ℕ) (rows : List PullRow) (more : Bool)
    (answer : Fallible PullPageResult × LocalStore) : Type 0 where
  pub synced : IsSynced env zone (answer.1)
  pub reached :
      (page : PullPageResult)
      → answer.0 ≡ ok page
      → ((get_sync_cursor (answer.1)).after_sequence ≡ from + length rows) × (page.has_more ≡ more)

module _ (env : Env) (zone : String) (host : Host) (transport : PullTransport) (s : LocalStore)
    (l : ℕ) (more : Bool) (synced : IsSynced env zone s) where
  abbrev from : ℕ
  from = (get_sync_cursor s).after_sequence

  abbrev rows : List PullRow
  rows = take l (drop from (zone_log zone env))

  Advances-threw :
      (t : LocalStore) (m : String) → Extends s t → Advances env zone from rows more (threw m, t)
  Advances-threw t m x = record {
    synced = Extends-IsSynced env zone s t x synced;
    reached = λ page h. cc;
  }

  finish_page-Advances :
      (numbered : Numbered from rows) (n : ℕ) (s₁ : LocalStore)
      → Extends s s₁
      → All (HoldsEvent s₁) (events_of rows)
      → (b : Fallible ℕ × LocalStore) → Imports host transport HoldsErasure s₁ (erasures_of rows) b
      → Advances env zone from rows more
          (finish_page host transport (page_of rows more) (get_sync_cursor s) n b)
  unfolding persist_sync_cursor
  finish_page-Advances numbered n s₁ x held (threw m, t) (y, z) =
      Advances-threw t m (Extends-trans x y)
  finish_page-Advances numbered n s₁ x held (ok k, t) (y, z) =
      let here : All (HoldsRow t) rows =
        rows_held t rows (All-HoldsEvent (events_of rows) y held) (z k refl) in
      let all =
        All-append (HoldsRow t) (take from (zone_log zone env)) rows
          (All-Extends (take from (zone_log zone env)) (Extends-trans x y) (synced.1)) here in
      let moved = sequence-page (get_sync_cursor s) rows more numbered in
      let now = get-persist t (sequence_after (page_of rows more) (get_sync_cursor s)) _ in
      record {
        synced = (
          y.zone_kept ∙ x.zone_kept ∙ synced.0,
          rw (now, moved, take-add from l (zone_log zone env))
              (persist-held t _ _ (take from (zone_log zone env) ++ rows) all),
        );
        reached = λ page h. (now ∙ moved, ground arith);
      }

  with_events-Advances :
      (numbered : Numbered from rows) (a : Fallible ℕ × LocalStore)
      → Imports host transport HoldsEvent s (events_of rows) a
      → Advances env zone from rows more
          (with_events host transport (page_of rows more) (get_sync_cursor s) a)
  with_events-Advances numbered (threw m, t) (x, y) = Advances-threw t m x
  with_events-Advances numbered (ok n, t) (x, y) =
      finish_page-Advances numbered n t x (y n refl) _
        (import_erasures-Imports host transport t (erasures_of rows) 0)

  with_result-Advances :
      Numbered from rows
      → (r : Fallible SyncPullResult) → ((q : SyncPullResult) → r ≡ ok q → q ≡ page_of rows more)
      → Advances env zone from rows more (with_result host transport s (get_sync_cursor s) r)
  with_result-Advances numbered (threw m) same = Advances-threw s m (Extends-refl s)
  with_result-Advances numbered (ok q) same =
      rw (same q refl) (
        with_events-Advances numbered _ (import_events-Imports host transport s (events_of rows) 0))

-- the answers of the worker, in one state of its tables
abbrev pub served :
    WorkerHost
    → Env
    → (authorization : Option String)
    → ((id zone digest : String) → Fallible ProtectedValueDownload)
    → (SyncPullRequest → Option String)
    → PullTransport
served worker env authorization values errors = record {
  fetch_pull = λ q. handle_pull worker env authorization (ok q);
  get_protected_value = values;
  request_errors = errors;
}

abbrev asked_after : ℕ → ℕ
asked_after n = or_else (if ltb n 1 then none else some n) 0

asked_after_lem : (n : ℕ) → asked_after n ≡ n
asked_after_lem n = ground arith

log-Numbered : (env : Env) (zone : String) → IsFilledIn zone env → Numbered 0 (zone_log zone env)
unfolding zone_log
log-Numbered env zone full = full.numbered

module _ (worker : WorkerHost) (env : Env) (authorization : Option String) (host : Host)
    (values : (id zone digest : String) → Fallible ProtectedValueDownload)
    (errors : SyncPullRequest → Option String) (zone : String) (limit : ℕ)
    (full : IsFilledIn zone env) (recorded : All IsRecorded (zone_log zone env)) where
  abbrev pub transport : PullTransport
  transport = served worker env authorization values errors

  abbrev pub log : List PullRow
  log = zone_log zone env

  answered :
      (s : LocalStore) (q : SyncPullResult)
      → IsSynced env zone s
      → answer_of host transport (pull_request s limit (get_sync_cursor s)) ≡ ok q
      → q
        ≡ page_of
            (take limit (drop (get_sync_cursor s).after_sequence log))
            (ltb limit (length (drop (get_sync_cursor s).after_sequence log)))
  answered s q synced h =
      let c = get_sync_cursor s in
      let request = pull_request s limit c in
      let p = then-ok (assert_valid "sync pull request" (errors request)) _ h in
      read_pull-handle_pull worker env authorization request q (p.1)
      ∙ pull_page_lem env request (subst (λ z. IsFilledIn z env) (sym (synced.0)) full)
          (subst (λ z. All IsRecorded (zone_log z env)) (sym (synced.0)) recorded) refl
      ∙ ap
          (λ z.
            page_of (take limit (drop (asked_after c.after_sequence) (zone_log z env)))
              (ltb limit (length (drop (asked_after c.after_sequence) (zone_log z env)))))
          (synced.0)
      ∙ ap (λ n. page_of (take limit (drop n log)) (ltb limit (length (drop n log))))
          (asked_after_lem c.after_sequence)

  pub pull_page-Advances :
      (s : LocalStore)
      → IsSynced env zone s
      → Advances env zone
          (get_sync_cursor s).after_sequence
          (take limit (drop (get_sync_cursor s).after_sequence log))
          (ltb limit (length (drop (get_sync_cursor s).after_sequence log)))
          (pull_page host transport limit s)
  unfolding pull_page
  pull_page-Advances s synced =
      with_result-Advances env zone host transport s limit
        (ltb limit (length (drop (get_sync_cursor s).after_sequence log))) synced
        (take-Numbered limit (get_sync_cursor s).after_sequence _ (
          subst (λ n. Numbered n (drop (get_sync_cursor s).after_sequence log))
            (zero-add (get_sync_cursor s).after_sequence)
            (drop-Numbered (get_sync_cursor s).after_sequence 0 log (log-Numbered env zone full))))
        _ (λ q h. answered s q synced h)
