-- ===== src/Agentic/Jobs.antt =====
-- packages/agentic/src/jobs.ts: the table `agentic_jobs` and the lease state machine.
-- A row keeps the job as JSON beside the columns that the queries read. `sha256_hex` is the
-- platform's hash; `lease_id` is drawn at random by the code, and so is an argument.
pub mod Store
pub mod Query
pub mod Lease
pub mod Finish
pub mod Reclaim
pub mod Steps
pub mod Invariant
pub mod Writes
pub mod History
pub mod Operations
pub mod Enqueue
pub mod Runs
pub mod Guarantees
pub mod Granting
pub mod Counting
pub mod Retrying
mod Tests
