-- ===== src/Retrieval.antt =====
-- packages/retrieval: the levels at which a unit is shown, and the jobs that embed chunks.
pub mod Resolutions
pub mod EmbeddingJobs
