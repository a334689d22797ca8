-- ===== src/LocalStore.antt =====
-- packages/local-store/src/store.ts: what a device keeps of the sync. The inbox of records that were
-- pulled, the cursor, and the outbox of those to push.
pub mod Store
pub mod Inbox
pub mod Values
pub mod Replays
pub mod Landing
pub mod Admission
pub mod Outbox
mod Tests
