-- ===== src/V5.antt =====
-- packages/v5: the opt-in draft lane.
pub mod Jcs
pub mod Sidecar
pub mod M8
pub mod Reducer
