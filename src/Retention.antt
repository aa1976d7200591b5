-- ===== src/Retention.antt =====
-- internal/sandbox/retention.go: the pruning of old runs.
pub mod Plan
pub mod Prune
pub mod Safety
pub mod Budget
pub mod Needed
pub mod Accounts
