-- ===== src/SyncClient/Pull.antt =====
-- packages/sync-client/src/index.ts: `pullPage`. An import that throws leaves what was imported before
-- it, and the cursor where it was.
use carpe_os.Common.{
  ℕ, zero, suc, ◌+◌, max, String, Bool, true, false, ◌&&◌, Option, none, some, List, [], ◌∷◌, leb,
  ltb, if◌then◌else◌, or_else, Fallible, ok, threw, ◌>>=◌, ◌>>◌,
}
use carpe_os.Common.Text.{◌<>◌, decimal}
use carpe_os.Schema.{
  CanonicalEvent, ErasureLedgerRecord, ProtectedValueRef, ProtectedValueMetadata, SyncPullRequest,
  SyncPullResult,
}
use carpe_os.SyncWorker.Store.{Body, pull_result, Response}
use carpe_os.LocalStore.Store.{CursorRow, LocalStore}
use carpe_os.LocalStore.Inbox.{
  ImportStatus, imported, replayed, Host, assert_valid, import_pulled_event, import_pulled_erasure,
  get_sync_cursor, persist_sync_cursor,
}
use carpe_os.LocalStore.Values.{get_event_protected_value_ref, import_pulled_protected_value}

pub record ProtectedValueDownload : Type 0 where
  pub metadata : ProtectedValueMetadata
  pub ciphertext : List ℕ

-- the answers of the server to the calls of a pull, and the validator that a generator writes
pub record PullTransport : Type 0 where
  pub fetch_pull : SyncPullRequest → Response
  pub get_protected_value : (id zone digest : String) → Fallible ProtectedValueDownload
  pub request_errors : SyncPullRequest → Option String

-- `response.ok`
abbrev pub is_success : ℕ → Bool
is_success status = leb 200 status && ltb status 300

unfoldable pub pull_body : Body → Fallible SyncPullResult
pull_body (pull_result r) = ok r
pull_body _ = threw "invalid sync pull result"

-- `SyncHttpTransport.pull`
unfoldable pub read_pull : Response → Fallible SyncPullResult
unfolding pull_body
read_pull response =
    if is_success response.status
    then pull_body response.body
    else threw ("sync request failed (HTTP " <> decimal response.status <> ")")

pub record PullPageResult : Type 0 where
  pub imported_events : ℕ
  pub imported_erasures : ℕ
  pub after_sequence : ℕ
  pub cursor : Option String
  pub has_more : Bool

abbrev pub counted : ImportStatus → ℕ
counted imported = 1
counted replayed = 0

unfoldable pub max_pulled_events : List CanonicalEvent → ℕ → ℕ
max_pulled_events [] n = n
max_pulled_events (e ∷ es) n = max_pulled_events es (max n (or_else e.zone_sequence 0))

unfoldable pub max_pulled_erasures : List ErasureLedgerRecord → ℕ → ℕ
max_pulled_erasures [] n = n
max_pulled_erasures (x ∷ xs) n = max_pulled_erasures xs (max n (or_else x.zone_sequence 0))

-- over the events and then the erasures
unfoldable pub max_pulled_sequence : SyncPullResult → ℕ → ℕ
max_pulled_sequence r n = max_pulled_erasures r.erasures (max_pulled_events r.events n)

abbrev pub pull_request : LocalStore → (limit : ℕ) → CursorRow → SyncPullRequest
pull_request s limit c = record {
  client_id = s.client_id;
  trust_zone_id = s.trust_zone_id;
  after_sequence = if ltb c.after_sequence 1 then none else some c.after_sequence;
  recorded_after = none;
  limit = limit;
}

abbrev pub sequence_after : SyncPullResult → CursorRow → ℕ
sequence_after r c = or_else r.after_sequence (max_pulled_sequence r c.after_sequence)

-- the rest of a loop over imports, after one of them
abbrev pub after_import :
    LocalStore
    → ℕ
    → (LocalStore → ℕ → Fallible ℕ × LocalStore)
    → Fallible (ImportStatus × LocalStore)
    → Fallible ℕ × LocalStore
after_import s n rest (threw m) = (threw m, s)
after_import s n rest (ok (st, s')) = rest s' (n + counted st)

-- the loop over pages goes on while there are more
abbrev pub join_pages :
    PullPageResult
    → Fallible (List PullPageResult) × LocalStore
    → Fallible (List PullPageResult) × LocalStore
join_pages page (threw m, s) = (threw m, s)
join_pages page (ok pages, s) = (ok (page ∷ pages), s)

abbrev pub go_on :
    (has_more : Bool)
    → PullPageResult
    → LocalStore
    → (LocalStore → Fallible (List PullPageResult) × LocalStore)
    → Fallible (List PullPageResult) × LocalStore
go_on true page s rest = join_pages page (rest s)
go_on false page s rest = (ok (page ∷ []), s)

abbrev pub after_page :
    (LocalStore → Fallible (List PullPageResult) × LocalStore)
    → Fallible PullPageResult × LocalStore
    → Fallible (List PullPageResult) × LocalStore
after_page rest (threw m, s) = (threw m, s)
after_page rest (ok page, s) = go_on page.has_more page s rest

module _ (host : Host) (transport : PullTransport) where
  unfoldable pub import_with_ref :
      LocalStore → CanonicalEvent → Option ProtectedValueRef → Fallible (ImportStatus × LocalStore)
  import_with_ref s e none = import_pulled_event host s e
  import_with_ref s e (some r) = do
    download ←
        transport.get_protected_value r.protected_value_id e.trust_zone_id
          r.encrypted_blob.digest.value
    import_pulled_protected_value host s
        (record { event = e; metadata = download.metadata; ciphertext = download.ciphertext })

  unfoldable pub import_event : LocalStore → CanonicalEvent → Fallible (ImportStatus × LocalStore)
  unfolding import_with_ref
  import_event s e = import_with_ref s e (get_event_protected_value_ref e)

  -- how many were new, and the store that is left
  unfoldable pub import_events : LocalStore → List CanonicalEvent → ℕ → Fallible ℕ × LocalStore
  import_events s [] n = (ok n, s)
  import_events s (e ∷ es) n = after_import s n (λ s' n'. import_events s' es n') (import_event s e)

  unfoldable pub import_erasures :
      LocalStore → List ErasureLedgerRecord → ℕ → Fallible ℕ × LocalStore
  import_erasures s [] n = (ok n, s)
  import_erasures s (x ∷ xs) n =
      after_import s n (λ s' n'. import_erasures s' xs n') (import_pulled_erasure host s x)

  abbrev pub finish_page :
      SyncPullResult
      → CursorRow
      → (events : ℕ) → Fallible ℕ × LocalStore
      → Fallible PullPageResult × LocalStore
  finish_page r c events (threw m, s) = (threw m, s)
  finish_page r c events (ok erasures, s) = (
    ok (record {
      imported_events = events;
      imported_erasures = erasures;
      after_sequence = sequence_after r c;
      cursor = r.cursor;
      has_more = r.has_more;
    }),
    persist_sync_cursor s (sequence_after r c) r.cursor,
  )

  abbrev pub with_events :
      SyncPullResult → CursorRow → Fallible ℕ × LocalStore → Fallible PullPageResult × LocalStore
  with_events r c (threw m, s) = (threw m, s)
  with_events r c (ok events, s) = finish_page r c events (import_erasures s r.erasures 0)

  abbrev pub with_result :
      LocalStore → CursorRow → Fallible SyncPullResult → Fallible PullPageResult × LocalStore
  with_result s c (threw m) = (threw m, s)
  with_result s c (ok r) = with_events r c (import_events s r.events 0)

  abbrev pub answer_of : SyncPullRequest → Fallible SyncPullResult
  answer_of request =
      assert_valid "sync pull request" (transport.request_errors request)
      >> read_pull (transport.fetch_pull request)

  unfoldable pub pull_page : (limit : ℕ) → LocalStore → Fallible PullPageResult × LocalStore
  pull_page limit s =
      let c = get_sync_cursor s in with_result s c (answer_of (pull_request s limit c))

  -- the loop over pages of `carpeos sync pull` and `carpeos sync once`, with at most as many rounds
  -- as it is given
  unfoldable pub pull_pages :
      (max_pages limit : ℕ) → LocalStore → Fallible (List PullPageResult) × LocalStore
  pull_pages zero limit s = (ok [], s)
  pull_pages (suc n) limit s = after_page (λ s'. pull_pages n limit s') (pull_page limit s)
