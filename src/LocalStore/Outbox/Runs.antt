-- ===== src/LocalStore/Outbox/Runs.antt =====
-- packages/local-store/src/store.ts: runs of `leaseOutbox`, `ackOutbox` and `retryOutbox`, and the
-- rows of the outbox that they leave alone.
use carpe_os.Common.{
  ℕ, ◌+◌, ◌<◌, ◌≡◌, ◌≢◌, refl, ◌∙◌, String, false, some, List, [], ◌∷◌, leb, arith, Bool-cases, inl,
  inr, All, Fallible, ok, threw, eq_iff,
}
use carpe_os.Capture.SyncAdmission.{SyncAdmissionPolicyId}
use carpe_os.LocalStore.Store.{OutboxRow, leased, delivered, LocalStore}
use carpe_os.LocalStore.Outbox.{
  LeaseResult, is_due, scan_cap, lease_call, scan_outbox, lease_outbox, may_finish, delivered_row,
  retried_row, ack_outbox, retry_outbox,
}
use carpe_os.LocalStore.Outbox.Admitted.{All-map}
use carpe_os.LocalStore.Outbox.Rows.{rows_of, finish-rows, scan-rows}

-- a call on the outbox; a lease is drawn afresh
pub data OutboxStep : Type 0 where
  a_lease : (limit lease_ms now : ℕ) → SyncAdmissionPolicyId → (lease : String) → OutboxStep
  an_ack : (id : ℕ) → (lease : String) → (now : ℕ) → OutboxStep
  a_retry : (id : ℕ) → (lease : String) → (delay_ms : ℕ) → (error : String) → (now : ℕ) → OutboxStep

-- a call that throws leaves the store as it was
abbrev stored : LocalStore → Fallible (LeaseResult × LocalStore) → LocalStore
stored s (ok (result, s')) = s'
stored s (threw message) = s

unfoldable pub perform : LocalStore → OutboxStep → LocalStore
perform s (a_lease limit lease_ms now policy lease) =
    stored s (lease_outbox s limit lease_ms now policy lease)
perform s (an_ack id lease now) = (ack_outbox s id lease now).1
perform s (a_retry id lease delay error now) = (retry_outbox s id lease delay error now).1

unfoldable pub run : LocalStore → List OutboxStep → LocalStore
run s [] = s
run s (st ∷ sts) = run (perform s st) sts

-- the call does not concern the row
abbrev Spares : OutboxStep → OutboxRow → Type 0
Spares (a_lease limit lease_ms now policy lease) o = is_due now o ≡ false
Spares (an_ack id lease now) o = may_finish id lease o ≡ false
Spares (a_retry id lease delay error now) o = may_finish id lease o ≡ false

perform-rows :
    (k : ℕ) (s : LocalStore) (st : OutboxStep)
    → All (Spares st) (rows_of k (s.outbox))
    → rows_of k (perform s st).outbox ≡ rows_of k (s.outbox)
unfolding perform lease_outbox scan_outbox ack_outbox retry_outbox
perform-rows k s (a_lease limit lease_ms now policy lease) h =
    let c = lease_call s limit lease_ms now policy lease in
    elim (Bool-cases (leb 1 limit)) [
      | inr e ↦ rw e refl
      | inl e ↦ elim (Bool-cases (leb 1 lease_ms)) [
        | inr g ↦ rw (e, g) refl
        | inl g ↦
            rw (e, g)
              (scan-rows k c (scan_cap c)
                (record { outbox = s.outbox; leased_ids = []; skipped = 0; scanned = 0 }) h)
      ]
    ]
perform-rows k s (an_ack id lease now) h =
    finish-rows k id lease (delivered_row now) (s.outbox) (λ o. refl) h
perform-rows k s (a_retry id lease delay error now) h =
    finish-rows k id lease (retried_row (now + delay) error) (s.outbox) (λ o. refl) h

run-rows :
    (k : ℕ) (rows : List OutboxRow) (s : LocalStore) (sts : List OutboxStep)
    → rows_of k (s.outbox) ≡ rows
    → All (λ st. All (Spares st) rows) sts
    → rows_of k (run s sts).outbox ≡ rows
unfolding run
run-rows k rows s [] e h = e
run-rows k rows s (st ∷ sts) e (p, h) =
    run-rows k rows (perform s st) sts (perform-rows k s st (rw e p) ∙ e) h

-- a row that holds a lease until a time
abbrev pub IsHeldUntil : String → ℕ → OutboxRow → Type 0
IsHeldUntil lease t o =
    (o.state ≡ leased) × (o.lease_id ≡ some lease) × (o.lease_expires_at ≡ some t)

-- a call by another than the holder of the lease, before it ends
abbrev pub IsForeign : String → ℕ → OutboxStep → Type 0
IsForeign lease t (a_lease limit lease_ms now policy other) = now < t
IsForeign lease t (an_ack id other now) = other ≢ lease
IsForeign lease t (a_retry id other delay error now) = other ≢ lease

finish_delivered :
    (id : ℕ) (lease : String) (o : OutboxRow) → o.state ≡ delivered → may_finish id lease o ≡ false
unfolding may_finish
finish_delivered id lease o e = rw (may_finish, e) (ground arith)

delivered-Spares : (st : OutboxStep) (o : OutboxRow) → o.state ≡ delivered → Spares st o
unfolding is_due
delivered-Spares (a_lease limit lease_ms now policy lease) o e = rw (is_due, e) refl
delivered-Spares (an_ack id lease now) o e = finish_delivered id lease o e
delivered-Spares (a_retry id lease delay error now) o e = finish_delivered id lease o e

finish_foreign :
    (lease : String) (t id : ℕ) (other : String) (o : OutboxRow)
    → IsHeldUntil lease t o
    → other ≢ lease
    → may_finish id other o ≡ false
unfolding may_finish
finish_foreign lease t id other o (e, f, g) n =
    rw (may_finish, e, f) (ground (arith, eq_iff lease other, n))

foreign-Spares :
    (lease : String) (t : ℕ) (st : OutboxStep) (o : OutboxRow)
    → IsForeign lease t st
    → IsHeldUntil lease t o
    → Spares st o
unfolding is_due
foreign-Spares lease t (a_lease limit lease_ms now policy other) o n (e, f, g) =
    rw (is_due, e, g) (ground (arith, n))
foreign-Spares lease t (an_ack id other now) o n h = finish_foreign lease t id other o h n
foreign-Spares lease t (a_retry id other delay error now) o n h =
    finish_foreign lease t id other o h n

-- what all rows have, every call of a list spares
Spares-All :
    (P : OutboxRow → Type 0) (Q : OutboxStep → Type 0) (rows : List OutboxRow)
    (sts : List OutboxStep)
    → ((st : OutboxStep) (o : OutboxRow) → Q st → P o → Spares st o)
    → All P rows
    → All Q sts
    → All (λ st. All (Spares st) rows) sts
Spares-All P Q rows [] f h q = tt
Spares-All P Q rows (st ∷ sts) f h (q, qs) =
    (All-map P rows (λ o p. f st o q p) h, Spares-All P Q rows sts f h qs)

All-tt : (sts : List OutboxStep) → All (λ st. Unit {0}) sts
All-tt [] = tt
All-tt (st ∷ sts) = (tt, All-tt sts)

-- A delivered row of the outbox is final: no run of leases, acknowledgements and retries, at whatever
-- times, changes, drops or adds a row under its identifier. All rows under it must be delivered.
pub run-delivered :
    (k : ℕ) (s : LocalStore) (sts : List OutboxStep)
    → All (λ o. o.state ≡ delivered) (rows_of k (s.outbox))
    → rows_of k (run s sts).outbox ≡ rows_of k (s.outbox)
run-delivered k s sts h = run-rows k _ s sts refl (
    Spares-All _ (λ st. Unit {0}) (rows_of k (s.outbox)) sts (λ st o q e. delivered-Spares st o e) h
      (All-tt sts))

-- A lease on a row is exclusive until it ends: a run of leases at earlier times, and of
-- acknowledgements and retries under other leases, changes, drops or adds no row under its identifier.
-- All rows under it must hold the lease until that time.
pub run-leased :
    (k t : ℕ) (lease : String) (s : LocalStore) (sts : List OutboxStep)
    → All (IsHeldUntil lease t) (rows_of k (s.outbox))
    → All (IsForeign lease t) sts
    → rows_of k (run s sts).outbox ≡ rows_of k (s.outbox)
run-leased k t lease s sts h q = run-rows k _ s sts refl (
    Spares-All _ (IsForeign lease t) (rows_of k (s.outbox)) sts
      (λ st o n e. foreign-Spares lease t st o n e) h q)
