-- ===== src/Proxy.antt =====
-- internal/proxy and internal/capability/rest.go: model calls that are paid for from a capability.
pub mod Wire
pub mod Client
pub mod Calls
pub mod Bounds
pub mod Paid
pub mod Verified
pub mod Forwarded
pub mod Trace
pub mod Refine
pub mod Ledger
