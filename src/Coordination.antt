-- ===== src/Coordination.antt =====
-- noesis_harness/coordination.py: leases, signals and actions.
pub mod Leases
pub mod Actions
pub mod Signals
