-- ===== src/Capture.antt =====
-- packages/capture: what may leave the machine, and the ledger of runs.
pub mod SyncAdmission
pub mod RunLedger
