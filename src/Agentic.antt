-- ===== src/Agentic.antt =====
-- packages/agentic: the durable job store, its digests, and the stages that decide without a model.
pub mod Types
pub mod Digest
pub mod Jobs
pub mod Gate
pub mod Spend
