-- ===== src/Retrieval/EmbeddingJobs/Delays.antt =====
-- When a failed job of packages/retrieval/src/embedding-jobs.ts is tried again.
use carpe_os.Common.{ℕ, ◌+◌, ◌≤◌, ◌<◌, arith}
use carpe_os.Retrieval.EmbeddingJobs.Finish.{next_utc_midnight}

midnight_bounds :
    (now : ℕ) → (now < next_utc_midnight now) × (next_utc_midnight now ≤ now + 86400000)
midnight_bounds now = (omega arith, omega arith)
