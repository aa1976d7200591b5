-- ===== src/Tripwire.antt =====
-- internal/pushtripwire: the response controls after a push.
pub mod Contract
pub mod Store
pub mod Apply
pub mod Halts
pub mod Permanent
pub mod Replay
