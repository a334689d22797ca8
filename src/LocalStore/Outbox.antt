-- ===== src/LocalStore/Outbox.antt =====
-- packages/local-store/src/store.ts: the outbox. The rows stand in the order of `outbox_id`, which
-- AUTOINCREMENT makes the order in which they were inserted.
pub mod Loop
pub mod Admitted
pub mod Rows
pub mod Runs
use carpe_os.Common.{
  ℕ, zero, suc, ◌+◌, ◌-◌, ◌*◌, min, max, String, Bool, true, false, not, ◌&&◌, ◌||◌, ◌==◌, Option,
  none, some, List, [], ◌∷◌, ◌++◌, str_eq, leb, ltb, if◌then◌else◌, length, take, keep, Fallible,
  ok, guard, ◌>>◌,
}
use carpe_os.Common.Code.{text_take}
use carpe_os.Common.Table.{find}
use carpe_os.Schema.{SyncPushRequest}
use carpe_os.Capture.SyncAdmission.{SyncAdmissionPolicyId, full_log, AdmissionDecision, admit, skip}
use carpe_os.LocalStore.Store.{
  EventRow, OutboxState, pending, leased, delivered, OutboxRow, DispositionRow, LocalStore,
  event_key,
}
use carpe_os.LocalStore.Admission.{decide}

pub record LeasedOutboxItem : Type 0 where
  pub outbox_id : ℕ
  pub event_id : String
  pub protected_value_id : String
  pub local_sequence : ℕ
  pub attempts : ℕ
  pub push_request : SyncPushRequest

pub record LeaseResult : Type 0 where
  pub lease_id : String
  pub leased_until : ℕ
  pub items : List LeasedOutboxItem
  pub admission_skipped : ℕ
  pub admission_policy : SyncAdmissionPolicyId

-- a row and its event
pub record JoinedRow : Type 0 where
  pub outbox : OutboxRow
  pub event : EventRow

abbrev pub add_joined : OutboxRow → Option EventRow → List JoinedRow → List JoinedRow
add_joined o none rest = rest
add_joined o (some e) rest = record { outbox = o; event = e } ∷ rest

-- JOIN canonical_events e ON e.event_id = o.event_id
unfoldable pub join_events : List EventRow → List OutboxRow → List JoinedRow
join_events events [] = []
join_events events (o ∷ os) =
    add_joined o (find event_key o.event_id events) (join_events events os)

-- `lease_expires_at <= ?`, which NULL is not
abbrev ended : Option ℕ → ℕ → Bool
ended none now = false
ended (some t) now = leb t now

is_due_in : OutboxState → ℕ → OutboxRow → Bool
is_due_in pending now o = leb o.available_at now
is_due_in leased now o = ended o.lease_expires_at now
is_due_in delivered now o = false

unfoldable pub is_due : ℕ → OutboxRow → Bool
unfolding is_due_in
is_due now o = is_due_in o.state now o

abbrev pub is_open : OutboxState → Bool
is_open delivered = false
is_open _ = true

abbrev pub deletes : ℕ → OutboxRow → Bool
deletes id o = o.outbox_id == id && is_open o.state

-- DELETE FROM outbox WHERE outbox_id = ? AND state IN ('pending', 'leased')
unfoldable pub delete_row : ℕ → List OutboxRow → List OutboxRow
delete_row id [] = []
delete_row id (o ∷ os) = let rest = delete_row id os in if deletes id o then rest else o ∷ rest

-- UPDATE outbox SET … WHERE outbox_id = ?
unfoldable pub update_row : ℕ → (OutboxRow → OutboxRow) → List OutboxRow → List OutboxRow
update_row id f [] = []
update_row id f (o ∷ os) =
    let rest = update_row id f os in if o.outbox_id == id then f o ∷ rest else o ∷ rest

pub record LeaseState : Type 0 where
  pub outbox : List OutboxRow
  pub leased_ids : List ℕ
  pub skipped : ℕ
  pub scanned : ℕ

abbrev pub lease_of : String → ℕ → OutboxRow → OutboxRow
lease_of lease until o = record o {
  state = leased;
  lease_id = some lease;
  lease_expires_at = some until;
  attempts = o.attempts + 1;
}

abbrev is_thin : SyncAdmissionPolicyId → Bool
is_thin full_log = false
is_thin _ = true

abbrev pub is_skip : AdmissionDecision → Bool
is_skip skip = true
is_skip admit = false

-- what a call of `leaseOutbox` is given, and the tables it only reads
pub record LeaseCall : Type 0 where
  pub limit : ℕ
  pub lease_id : String
  pub leased_until : ℕ
  pub now : ℕ
  pub policy : SyncAdmissionPolicyId
  pub events : List EventRow
  pub dispositions : List DispositionRow

abbrev pub scan_cap : LeaseCall → ℕ
scan_cap c = max (c.limit * 50) 200

-- `thinFilter` and the decision `skip`
unfoldable pub skips : LeaseCall → EventRow → Bool
skips c e = is_thin c.policy && is_skip (decide c.dispositions c.policy e)

abbrev pub scan_row : LeaseCall → JoinedRow → LeaseState → LeaseState
scan_row c j st =
    if skips c j.event
    then record {
      outbox = delete_row j.outbox.outbox_id st.outbox;
      leased_ids = st.leased_ids;
      skipped = st.skipped + 1;
      scanned = st.scanned + 1;
    }
    else record {
      outbox = update_row j.outbox.outbox_id (lease_of c.lease_id c.leased_until) st.outbox;
      leased_ids = st.leased_ids ++ j.outbox.outbox_id ∷ [];
      skipped = st.skipped;
      scanned = st.scanned + 1;
    }

-- for (const row of batch)
unfoldable pub scan_batch : LeaseCall → List JoinedRow → LeaseState → LeaseState
scan_batch c [] st = st
scan_batch c (j ∷ js) st = elim (leb c.limit (length st.leased_ids)) [
  | true ↦ st
  | false ↦ scan_batch c js (scan_row c j st)
]

unfoldable pub head_rows : LeaseCall → LeaseState → List JoinedRow
head_rows c st =
    take (min 32 (scan_cap c - st.scanned)) (join_events c.events (keep (is_due c.now) st.outbox))

is_among : ℕ → List ℕ → Bool
is_among n [] = false
is_among n (m ∷ ms) = m == n || is_among n ms

-- `batch.every((r) => leasedIds.includes(Number(r.outbox_id)))`
unfoldable pub all_leased : List ℕ → List JoinedRow → Bool
unfolding is_among
all_leased ids [] = true
all_leased ids (j ∷ js) = is_among j.outbox.outbox_id ids && all_leased ids js

-- a batch that is not empty makes progress, since fewer than `limit` rows have been leased
abbrev pub after_batch :
    LeaseCall → List JoinedRow → LeaseState → (LeaseState → LeaseState) → LeaseState
after_batch c [] st again = st
after_batch c (j ∷ js) st again = elim (all_leased (scan_batch c (j ∷ js) st).leased_ids (j ∷ js)) [
  | true ↦ scan_batch c (j ∷ js) st
  | false ↦ again (scan_batch c (j ∷ js) st)
]

-- the `while` loop, with fuel
unfoldable pub scan : LeaseCall → ℕ → LeaseState → LeaseState
scan c zero st = st
scan c (suc fuel) st = elim (ltb (length st.leased_ids) c.limit && ltb st.scanned (scan_cap c)) [
  | false ↦ st
  | true ↦ after_batch c (head_rows c st) st (λ st'. scan c fuel st')
]

-- WHERE o.lease_id = ?
abbrev pub holds_lease : String → OutboxRow → Bool
holds_lease lease o = elim o.lease_id [ none ↦ false | some l ↦ str_eq l lease ]

abbrev pub item_of : JoinedRow → LeasedOutboxItem
item_of j = record {
  outbox_id = j.outbox.outbox_id;
  event_id = j.outbox.event_id;
  protected_value_id = j.event.protected_value_id;
  local_sequence = j.event.local_sequence;
  attempts = j.outbox.attempts;
  push_request = j.outbox.push_request_json;
}

unfoldable pub items_of : List JoinedRow → List LeasedOutboxItem
items_of [] = []
items_of (j ∷ js) = item_of j ∷ items_of js

abbrev pub lease_call :
    LocalStore → (limit lease_ms now : ℕ) → SyncAdmissionPolicyId → String → LeaseCall
lease_call s limit lease_ms now policy lease = record {
  limit = limit;
  lease_id = lease;
  leased_until = now + lease_ms;
  now = now;
  policy = policy;
  events = s.canonical_events;
  dispositions = s.dispositions;
}

-- a scan takes at most `scan_cap` rounds
unfoldable pub scan_outbox : LeaseCall → List OutboxRow → LeaseState
scan_outbox c rows =
    scan c (scan_cap c) (record { outbox = rows; leased_ids = []; skipped = 0; scanned = 0 })

abbrev pub lease_result : LeaseCall → LeaseState → LeaseResult
lease_result c st = record {
  lease_id = c.lease_id;
  leased_until = c.leased_until;
  items = items_of (join_events c.events (keep (holds_lease c.lease_id) st.outbox));
  admission_skipped = st.skipped;
  admission_policy = c.policy;
}

-- the policy has been resolved, and the identifier of the lease drawn
unfoldable pub lease_outbox :
    LocalStore
    → (limit lease_ms now : ℕ) → SyncAdmissionPolicyId
    → (lease_id : String) → Fallible (LeaseResult × LocalStore)
lease_outbox s limit lease_ms now policy lease = do
  guard (leb 1 limit) "lease limit must be a positive integer"
  guard (leb 1 lease_ms) "leaseMs must be a positive integer"
  let c = lease_call s limit lease_ms now policy lease
  let st = scan_outbox c s.outbox
  ok (lease_result c st, record s { outbox = st.outbox })

-- WHERE outbox_id = ? AND lease_id = ? AND state = 'leased'
is_leased_by : String → OutboxState → OutboxRow → Bool
is_leased_by lease leased o = holds_lease lease o
is_leased_by lease _ o = false

unfoldable pub may_finish : ℕ → String → OutboxRow → Bool
unfolding is_leased_by
may_finish id lease o = o.outbox_id == id && is_leased_by lease o.state o

unfoldable pub finish_row : ℕ → String → (OutboxRow → OutboxRow) → List OutboxRow → List OutboxRow
finish_row id lease f [] = []
finish_row id lease f (o ∷ os) =
    let rest = finish_row id lease f os in if may_finish id lease o then f o ∷ rest else o ∷ rest

unfoldable pub count_finished : ℕ → String → List OutboxRow → ℕ
count_finished id lease [] = 0
count_finished id lease (o ∷ os) =
    let rest = count_finished id lease os in if may_finish id lease o then suc rest else rest

abbrev pub delivered_row : ℕ → OutboxRow → OutboxRow
delivered_row now o = record o {
  state = delivered;
  delivered_at = some now;
  lease_id = none;
  lease_expires_at = none;
  last_error = none;
}

abbrev pub retried_row : ℕ → String → OutboxRow → OutboxRow
retried_row available error o = record o {
  state = pending;
  available_at = available;
  last_error = some (text_take 500 error);
  lease_id = none;
  lease_expires_at = none;
}

unfoldable pub ack_outbox : LocalStore → (id : ℕ) (lease : String) (now : ℕ) → Bool × LocalStore
ack_outbox s id lease now = (
  count_finished id lease s.outbox == 1,
  record s { outbox = finish_row id lease (delivered_row now) s.outbox },
)

unfoldable pub retry_outbox :
    LocalStore
    → (id : ℕ) (lease : String) (delay_ms : ℕ) (error : String) (now : ℕ) → Bool × LocalStore
retry_outbox s id lease delay error now = (
  count_finished id lease s.outbox == 1,
  record s { outbox = finish_row id lease (retried_row (now + delay) error) s.outbox },
)
