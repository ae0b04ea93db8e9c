-- ===== src/Dispatch.antt =====
-- The `dispatch` module: the Canopy client and phase reconciliation (src/dispatch/).
pub mod Canopy
pub mod Packet
pub mod Orchestrate
pub mod Reconcile
