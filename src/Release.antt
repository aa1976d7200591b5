-- ===== src/Release.antt =====
-- internal/release: the registry of agent releases.
pub mod Registry
pub mod Operations
pub mod Activation
pub mod Reconcile
pub mod Rows
pub mod Outcomes
pub mod Trace
pub mod Traced
pub mod Activated
pub mod Orderly
pub mod Resolution
pub mod Items
pub mod Rounds
pub mod Reconciled
