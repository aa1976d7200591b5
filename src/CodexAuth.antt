-- ===== src/CodexAuth.antt =====
-- internal/codexauth: the holder of the Codex credentials.
pub mod Files
pub mod Holder
pub mod Issued
pub mod Consumed
pub mod Usable
