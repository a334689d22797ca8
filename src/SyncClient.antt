-- ===== src/SyncClient.antt =====
-- packages/sync-client/src/index.ts: pushing the outbox and pulling a zone, over a store and an HTTP
-- transport, and the loops of apps/carpeos-cli/src/index.ts around them.
pub mod Pull
pub mod Held
pub mod Answers
pub mod Synced
pub mod Pulled
pub mod Paging
pub mod Whole
pub mod Push
pub mod Delivered
mod Tests
