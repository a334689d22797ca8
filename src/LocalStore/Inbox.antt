-- ===== src/LocalStore/Inbox.antt =====
-- packages/local-store/src/store.ts: importing what was pulled, and the cursor.
use carpe_os.Common.{
  ℕ, String, Option, none, some, List, [], ◌∷◌, ◌++◌, str_eq, or_else, Fallible, ok, threw, guard,
  ◌>>◌,
}
use carpe_os.Common.Text.{◌<>◌}
use carpe_os.Common.Table.{find, modify}
use carpe_os.Schema.{CanonicalEvent, ErasureLedgerRecord, ProtectedValueMetadata}
use carpe_os.Schema.Texts.{event_json, erasure_json}
use carpe_os.LocalStore.Store.{
  SealedValue, InboxEventRow, InboxErasureRow, CursorRow, LocalStore, erasure_key, cursor_key,
  get_event,
}

pub data ImportStatus : Type 0 where
  imported replayed : ImportStatus

-- what the code calls that is not modelled: the validators that a generator writes, with the
-- text of what they find, the platform's hash, and the opening of a value under the key of its sender, with its sealing under the device's
pub record Host : Type 0 where
  pub event_errors : CanonicalEvent → Option String
  pub erasure_errors : ErasureLedgerRecord → Option String
  pub metadata_errors : ProtectedValueMetadata → Option String
  pub hash_hex : List ℕ → String
  pub reseal : ProtectedValueMetadata → (ciphertext : List ℕ) → Fallible SealedValue

-- `if (!conformance.valid) throw new Error(…)`
abbrev pub assert_valid : (label : String) (errors : Option String) → Fallible (Unit {0})
assert_valid label none = ok tt
assert_valid label (some errors) = threw ("invalid " <> label <> ": " <> errors)

abbrev pub strip_zone_sequence : CanonicalEvent → CanonicalEvent
strip_zone_sequence e = record e { zone_sequence = none }

abbrev pub assert_same_json : (existing incoming kind id : String) → Fallible (Unit {0})
assert_same_json existing incoming kind id =
    guard (str_eq existing incoming) ("remote " <> kind <> " replay diverges for " <> id)

unfoldable pub assert_compatible_by :
    Option ℕ → CanonicalEvent → CanonicalEvent → Fallible (Unit {0})
assert_compatible_by (some n) existing incoming =
    assert_same_json (event_json existing) (event_json incoming) "event" incoming.event_id
assert_compatible_by none existing incoming =
    assert_same_json (event_json (strip_zone_sequence existing))
      (event_json (strip_zone_sequence incoming)) "event" incoming.event_id

-- an event that the device has captured itself may come back with its number
unfoldable pub assert_pull_replay_compatible :
    (existing incoming : CanonicalEvent) → Fallible (Unit {0})
unfolding assert_compatible_by
assert_pull_replay_compatible existing incoming =
    assert_compatible_by existing.zone_sequence existing incoming

abbrev pub assert_local_trust_zone : LocalStore → (zone id : String) → Fallible (Unit {0})
assert_local_trust_zone s zone id =
    guard (str_eq zone s.trust_zone_id)
      ("remote record " <> id <> " belongs to a different trust zone")

abbrev pub inbox_row : CanonicalEvent → (protected_value_id : String) → InboxEventRow
inbox_row e value = record {
  event_id = e.event_id;
  trust_zone_id = e.trust_zone_id;
  zone_sequence = or_else e.zone_sequence 0;
  protected_value_id = value;
  event_json = e;
}

abbrev pub insert_inbox : LocalStore → InboxEventRow → LocalStore
insert_inbox s r = record s { inbox_events = s.inbox_events ++ r ∷ [] }

unfoldable pub import_found :
    LocalStore → CanonicalEvent → Option CanonicalEvent → Fallible (ImportStatus × LocalStore)
import_found s e (some existing) = assert_pull_replay_compatible existing e >> ok (replayed, s)
import_found s e none = ok (imported, insert_inbox s (inbox_row e ""))

abbrev pub cursor_or_start : String → Option CursorRow → CursorRow
cursor_or_start zone (some r) = r
cursor_or_start zone none = record { trust_zone_id = zone; after_sequence = 0; cursor = none }

unfoldable pub get_sync_cursor : LocalStore → CursorRow
get_sync_cursor s = cursor_or_start s.trust_zone_id (find cursor_key s.trust_zone_id s.cursors)

unfoldable pub upsert_cursor : Option CursorRow → CursorRow → List CursorRow → List CursorRow
upsert_cursor none r rs = rs ++ r ∷ []
upsert_cursor (some q) r rs = modify cursor_key r.trust_zone_id (λ _. r) rs

-- the check that the number is a natural one is in its type
unfoldable pub persist_sync_cursor : LocalStore → (after : ℕ) (cursor : Option String) → LocalStore
unfolding upsert_cursor
persist_sync_cursor s after cursor = record s {
  cursors =
      upsert_cursor (find cursor_key s.trust_zone_id s.cursors)
        (record { trust_zone_id = s.trust_zone_id; after_sequence = after; cursor = cursor })
        s.cursors;
}

abbrev pub erasure_row : ErasureLedgerRecord → InboxErasureRow
erasure_row x = record {
  erasure_id = x.erasure_id;
  trust_zone_id = x.trust_zone_id;
  zone_sequence = or_else x.zone_sequence 0;
  erasure_json = x;
}

unfoldable pub erasure_found :
    LocalStore → ErasureLedgerRecord → Option InboxErasureRow → Fallible (ImportStatus × LocalStore)
erasure_found s x (some existing) =
    assert_same_json (erasure_json existing.erasure_json) (erasure_json x) "erasure" x.erasure_id
    >> ok (replayed, s)
erasure_found s x none =
    ok (imported, record s { inbox_erasures = s.inbox_erasures ++ erasure_row x ∷ [] })

module _ (host : Host) where
  unfoldable pub import_pulled_event :
      LocalStore → CanonicalEvent → Fallible (ImportStatus × LocalStore)
  import_pulled_event s e = do
    assert_valid "canonical event" (host.event_errors e)
    assert_local_trust_zone s e.trust_zone_id e.event_id
    import_found s e (get_event s e.event_id)

  unfoldable pub import_pulled_erasure :
      LocalStore → ErasureLedgerRecord → Fallible (ImportStatus × LocalStore)
  import_pulled_erasure s x = do
    assert_valid "erasure ledger record" (host.erasure_errors x)
    assert_local_trust_zone s x.trust_zone_id x.erasure_id
    erasure_found s x (find erasure_key x.erasure_id s.inbox_erasures)
