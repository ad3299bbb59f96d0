-- ===== src/Domain.antt =====
-- The components of packages/domain.
pub mod Types
pub mod Session
pub mod Evidence
pub mod ReviewGate
pub mod Selector
pub mod Approval
pub mod Revalidation
pub mod DatabaseApproval
pub mod Workflow
