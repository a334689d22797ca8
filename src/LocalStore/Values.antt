-- ===== src/LocalStore/Values.antt =====
-- packages/local-store/src/store.ts: `importPulledProtectedValue`, an event that was pulled with the
-- value it protects.
use carpe_os.Common.{
  ℕ, String, Bool, false, not, ◌&&◌, ◌||◌, ◌==◌, Option, none, some, List, [], ◌∷◌, ◌++◌, str_eq,
  ltb, length, if◌then◌else◌, or_else, Fallible, ok, threw, guard, ◌>>◌, ◌>>=◌,
}
use carpe_os.Common.Text.{◌<>◌}
use carpe_os.Common.Table.{find}
use carpe_os.Schema.{
  EventPayload, protected_content, ProtectedValueRef, CanonicalEvent, ProtectedValueMetadata,
}
use carpe_os.LocalStore.Store.{
  EventRow, SealedValue, ProtectedValueRow, ImportRow, LocalStore, value_key, get_event, next_row,
  inbox_key, has_idempotency_key, InboxEventRow,
}
use carpe_os.LocalStore.Inbox.{
  ImportStatus, imported, replayed, Host, assert_valid, assert_local_trust_zone, inbox_row,
  assert_pull_replay_compatible,
}

abbrev pub ref_of_content : EventPayload → Option ProtectedValueRef
ref_of_content (protected_content r others) = some r
ref_of_content _ = none

-- any algorithm is taken here
unfoldable pub get_event_protected_value_ref : CanonicalEvent → Option ProtectedValueRef
get_event_protected_value_ref e =
    if str_eq e.event_type "EvidenceArtifact" then ref_of_content e.payload else none

pub record ProtectedValueImportInput : Type 0 where
  pub event : CanonicalEvent
  pub metadata : ProtectedValueMetadata
  pub ciphertext : List ℕ

-- UNIQUE (event_id, protected_value_id), ON CONFLICT DO NOTHING
unfoldable pub has_import : (event value : String) → List ImportRow → Bool
has_import event value [] = false
has_import event value (r ∷ rs) =
    (str_eq r.event_id event && str_eq r.protected_value_id value) || has_import event value rs

abbrev pub import_row : ProtectedValueImportInput → (digest : String) → ImportRow
import_row i digest = record {
  event_id = i.event.event_id;
  protected_value_id = i.metadata.protected_value_id;
  trust_zone_id = i.metadata.trust_zone_id;
  zone_sequence = or_else i.event.zone_sequence 0;
  source_ciphertext_digest = digest;
  source_ciphertext_size_bytes = length i.ciphertext;
  source_metadata_json = i.metadata;
}

unfoldable pub record_protected_value_import :
    LocalStore → ProtectedValueImportInput → (digest : String) → LocalStore
unfolding has_import
record_protected_value_import s i digest = record s {
  imports =
      if has_import i.event.event_id i.metadata.protected_value_id s.imports
      then s.imports
      else s.imports ++ import_row i digest ∷ [];
}

abbrev sealed_row : ProtectedValueRef → SealedValue → ProtectedValueRow
sealed_row r v = record {
  protected_value_id = r.protected_value_id;
  vault_ref = r.vault_ref;
  key_ref = r.key_ref;
  nonce_ref = r.encrypted_blob.nonce_ref;
  tag_ref = r.encrypted_blob.tag_ref;
  sealed = v;
}

-- ON CONFLICT(protected_value_id) DO NOTHING
unfoldable pub put_value :
    Option ProtectedValueRow → ProtectedValueRow → List ProtectedValueRow → List ProtectedValueRow
put_value (some old) r rs = rs
put_value none r rs = rs ++ r ∷ []

unfoldable pub put_inbox :
    Option InboxEventRow → InboxEventRow → List InboxEventRow → List InboxEventRow
put_inbox (some old) r rs = rs
put_inbox none r rs = rs ++ r ∷ []

abbrev pub canonical_row : LocalStore → CanonicalEvent → (value : String) → EventRow
canonical_row s e value = record {
  local_sequence = next_row s.canonical_events;
  event_id = e.event_id;
  event_type = e.event_type;
  trust_zone_id = e.trust_zone_id;
  idempotency_key = e.idempotency_key;
  request_fingerprint = e.request_fingerprint;
  protected_value_id = value;
  event_json = e;
}

-- the four insertions of an event that is new
unfoldable pub insert_value :
    LocalStore
    → ProtectedValueImportInput
    → ProtectedValueRef
    → (digest : String) → SealedValue
    → Fallible (ImportStatus × LocalStore)
unfolding put_value put_inbox
insert_value s i r digest v = do
  guard (ltb 0 v.size_bytes) "CHECK constraint failed: size_bytes > 0"
  guard (not (has_idempotency_key i.event.trust_zone_id i.event.idempotency_key s.canonical_events))
      "UNIQUE constraint failed: canonical_events"
  ok (
    imported,
    record_protected_value_import
        (record s {
          protected_values =
              put_value (find value_key r.protected_value_id s.protected_values) (sealed_row r v)
                s.protected_values;
          canonical_events =
              s.canonical_events ++ canonical_row s i.event i.metadata.protected_value_id ∷ [];
          inbox_events =
              put_inbox (find inbox_key i.event.event_id s.inbox_events)
                (inbox_row i.event i.metadata.protected_value_id) s.inbox_events;
        })
        i digest,
  )

unfoldable pub value_found :
    LocalStore
    → ProtectedValueImportInput
    → ProtectedValueRef
    → (digest : String) → SealedValue
    → Option CanonicalEvent
    → Fallible (ImportStatus × LocalStore)
value_found s i r digest v (some existing) =
    assert_pull_replay_compatible existing i.event
    >> ok (replayed, record_protected_value_import s i digest)
value_found s i r digest v none = insert_value s i r digest v

abbrev pub assert_metadata_zone : ProtectedValueImportInput → Fallible (Unit {0})
assert_metadata_zone i =
    guard (str_eq i.metadata.trust_zone_id i.event.trust_zone_id)
      "protected value metadata trust zone does not match event"

module _ (host : Host) where
  -- the checks that relate the reference, the metadata and the bytes
  unfoldable pub assert_transfer :
      ProtectedValueImportInput → ProtectedValueRef → Fallible (Unit {0})
  assert_transfer i r = do
    guard (str_eq r.protected_value_id i.metadata.protected_value_id)
        "protected value metadata id does not match event"
    guard
        (str_eq r.encrypted_blob.digest.algorithm i.metadata.original_ciphertext_digest.algorithm
          && str_eq r.encrypted_blob.digest.value i.metadata.original_ciphertext_digest.value)
        "protected value metadata digest does not match event"
    guard (r.encrypted_blob.size_bytes == i.metadata.original_ciphertext_size_bytes)
        "protected value metadata size does not match event"
    guard (str_eq (host.hash_hex i.ciphertext) i.metadata.original_ciphertext_digest.value)
        "protected value ciphertext digest mismatch"
    guard (length i.ciphertext == i.metadata.original_ciphertext_size_bytes)
        "protected value ciphertext size mismatch"

  unfoldable pub import_checked :
      LocalStore
      → ProtectedValueImportInput
      → Option ProtectedValueRef
      → Fallible (ImportStatus × LocalStore)
  import_checked s i none =
      threw ("event " <> i.event.event_id <> " does not reference a protected value")
  import_checked s i (some r) = do
    assert_transfer i r
    v ← host.reseal i.metadata i.ciphertext
    value_found s i r (host.hash_hex i.ciphertext) v (get_event s i.event.event_id)

  unfoldable pub import_pulled_protected_value :
      LocalStore → ProtectedValueImportInput → Fallible (ImportStatus × LocalStore)
  import_pulled_protected_value s i = do
    assert_valid "canonical event" (host.event_errors i.event)
    assert_valid "protected value metadata" (host.metadata_errors i.metadata)
    assert_local_trust_zone s i.event.trust_zone_id i.event.event_id
    assert_metadata_zone i
    import_checked s i (get_event_protected_value_ref i.event)
