-- ===== src/Correlation.antt =====
-- internal/correlation: the correlation of a run with its pull request, and the outbox of events.
pub mod Clock
pub mod Outbox
pub mod Lease
pub mod Recorded
pub mod Candidates
pub mod Select
pub mod First
pub mod Leases
pub mod Moves
pub mod Trace
pub mod Lifecycle
pub mod Paired
pub mod Replay
pub mod Settle
