-- ===== src/Launch.antt =====
-- internal/sandbox/launch_intents.go: the durable intents of launches.
pub mod Intents
pub mod Busy
