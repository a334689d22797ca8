-- ===== src/LocalStore/Store.antt =====
-- packages/local-store/src/store.ts: the tables that the sync reads and writes, and the lookups. A
-- JSON column holds the record that it is the text of; columns that no statement here reads are left
-- out. An instant is in milliseconds since the epoch.
use carpe_os.Common.{
  ℕ, suc, String, Bool, false, ◌&&◌, ◌||◌, Option, none, some, List, [], ◌∷◌, str_eq, length,
}
use carpe_os.Common.Table.{find}
use carpe_os.Schema.{CanonicalEvent, ErasureLedgerRecord, SyncPushRequest, ProtectedValueMetadata}

-- a row of `canonical_events`
pub record EventRow : Type 0 where
  pub local_sequence : ℕ
  pub event_id : String
  pub event_type : String
  pub trust_zone_id : String
  pub idempotency_key : String
  pub request_fingerprint : String
  pub protected_value_id : String
  pub event_json : CanonicalEvent

pub data OutboxState : Type 0 where
  pending leased delivered : OutboxState

-- a row of `outbox`
pub record OutboxRow : Type 0 where
  pub outbox_id : ℕ
  pub event_id : String
  pub state : OutboxState
  pub attempts : ℕ
  pub available_at : ℕ
  pub lease_id : Option String
  pub lease_expires_at : Option ℕ
  pub last_error : Option String
  pub delivered_at : Option ℕ
  pub push_request_json : SyncPushRequest

-- what is encrypted under the key of the device
pub record SealedValue : Type 0 where
  pub nonce : List ℕ
  pub tag : List ℕ
  pub ciphertext : List ℕ
  pub plaintext_digest : String
  pub size_bytes : ℕ

-- a row of `protected_values`
pub record ProtectedValueRow : Type 0 where
  pub protected_value_id : String
  pub vault_ref : String
  pub key_ref : String
  pub nonce_ref : String
  pub tag_ref : String
  pub sealed : SealedValue

-- a row of `knowledge_dispositions`
pub record DispositionRow : Type 0 where
  pub source_event_id : String
  pub artifact_id : String
  pub disposition : String
  pub created_at : ℕ

-- a row of `sync_inbox_events`
pub record InboxEventRow : Type 0 where
  pub event_id : String
  pub trust_zone_id : String
  pub zone_sequence : ℕ
  pub protected_value_id : String
  pub event_json : CanonicalEvent

-- a row of `sync_inbox_erasures`
pub record InboxErasureRow : Type 0 where
  pub erasure_id : String
  pub trust_zone_id : String
  pub zone_sequence : ℕ
  pub erasure_json : ErasureLedgerRecord

-- a row of `protected_value_imports`
pub record ImportRow : Type 0 where
  pub event_id : String
  pub protected_value_id : String
  pub trust_zone_id : String
  pub zone_sequence : ℕ
  pub source_ciphertext_digest : String
  pub source_ciphertext_size_bytes : ℕ
  pub source_metadata_json : ProtectedValueMetadata

-- a row of `sync_cursors`
pub record CursorRow : Type 0 where
  pub trust_zone_id : String
  pub after_sequence : ℕ
  pub cursor : Option String

pub record LocalStore : Type 0 where
  pub trust_zone_id : String
  pub client_id : String
  pub canonical_events : List EventRow
  pub protected_values : List ProtectedValueRow
  pub outbox : List OutboxRow
  pub dispositions : List DispositionRow
  pub inbox_events : List InboxEventRow
  pub inbox_erasures : List InboxErasureRow
  pub imports : List ImportRow
  pub cursors : List CursorRow

abbrev pub event_key : EventRow → String
event_key r = r.event_id

abbrev pub inbox_key : InboxEventRow → String
inbox_key r = r.event_id

abbrev pub erasure_key : InboxErasureRow → String
erasure_key r = r.erasure_id

abbrev pub cursor_key : CursorRow → String
cursor_key r = r.trust_zone_id

abbrev pub value_key : ProtectedValueRow → String
value_key r = r.protected_value_id

-- `row === undefined ? undefined : JSON.parse(row.event_json)`
abbrev pub inbox_json : Option InboxEventRow → Option CanonicalEvent
inbox_json none = none
inbox_json (some r) = some r.event_json

abbrev pub event_or_inbox : Option EventRow → Option InboxEventRow → Option CanonicalEvent
event_or_inbox (some r) q = some r.event_json
event_or_inbox none q = inbox_json q

unfoldable pub get_event : LocalStore → String → Option CanonicalEvent
get_event s id =
    event_or_inbox (find event_key id s.canonical_events) (find inbox_key id s.inbox_events)

-- the number that AUTOINCREMENT gives in a table whose rows are never deleted
abbrev pub next_row {ℓ} : {A : Type ℓ} → List A → ℕ
next_row rows = suc (length rows)

-- UNIQUE (trust_zone_id, idempotency_key)
unfoldable pub has_idempotency_key : (zone key : String) → List EventRow → Bool
has_idempotency_key zone key [] = false
has_idempotency_key zone key (r ∷ rs) =
    (str_eq r.trust_zone_id zone && str_eq r.idempotency_key key) || has_idempotency_key zone key rs
