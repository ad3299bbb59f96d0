-- ===== src/Orchestrator.antt =====
-- apps/orchestrator: the parts of the orchestrator that keep evidence.
pub mod EventStore
pub mod RowDelta
