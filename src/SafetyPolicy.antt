-- ===== src/SafetyPolicy.antt =====
-- packages/safety-policy: the checks that a candidate must pass before it can be approved.
pub mod DatabaseInvariants
pub mod PatchIntegrity
pub mod CommandPolicy
