-- ===== src/Idempotency.antt =====
-- internal/idempotency: recorded responses of mutations, for safe retries.
pub mod Keys
pub mod Once
pub mod Readback
