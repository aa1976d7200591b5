-- ===== src/Policy.antt =====
-- internal/policy/policy.go: the decision on a request of an agent.
pub mod Types
pub mod Assertions
pub mod Check
pub mod Fields
pub mod Verdict
