-- ===== src/Retrieval/EmbeddingJobs.antt =====
-- packages/retrieval/src/embedding-jobs.ts: the jobs that embed chunks, and the records they leave.
pub mod Store
pub mod Lease
pub mod Finish
pub mod Rows
pub mod Leases
pub mod Runs
pub mod Delays
mod Tests
