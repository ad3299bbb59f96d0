-- ===== src/Domain/Workflow.antt =====
-- The validation workflow (packages/domain/src/state-machine.ts).
pub mod Events
pub mod Gates
pub mod Receipts
pub mod Refusals
pub mod Outcome
pub mod Attempts
pub mod Selection
pub mod Repair
pub mod Transition
pub mod Steps
pub mod Soundness
pub mod Completeness
pub mod History
pub mod Reservations
pub mod Approved
pub mod Mergeable
pub mod Merge
pub mod Evidence
pub mod FreshApproval
pub mod WellFormed
pub mod ReceiptFacts
pub mod Terminal
pub mod Graph
pub mod Runs
