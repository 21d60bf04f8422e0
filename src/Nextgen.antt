-- ===== src/Nextgen.antt =====
-- noesis_harness/nextgen.py: the primitives for long sessions, audits, commands and isolated agents.
pub mod Context
pub mod Audit
pub mod Ledger
pub mod Broker
