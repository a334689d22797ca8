-- ===== src/SyncWorker.antt =====
-- apps/carpeos-sync-worker/src/index.ts: the server that gives every record of a trust zone its
-- place in the zone's sequence.
pub mod Store
pub mod Receipts
pub mod Push
pub mod Pull
pub mod Order
pub mod Sequences
pub mod Batches
pub mod Commits
pub mod Runs
pub mod Pages
pub mod Told
pub mod Uploads
pub mod Puts
pub mod Uploaded
pub mod Confirmed
pub mod Downloads
pub mod Readback
pub mod Kept
pub mod Bucket
pub mod Samples
mod Tests
