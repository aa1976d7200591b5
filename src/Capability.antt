-- ===== src/Capability.antt =====
-- internal/capability: claims, their evaluation and the store of issued capabilities.
pub mod Claims
pub mod Evaluator
pub mod Decision
pub mod Mint
pub mod Handle
pub mod Store
pub mod Budget
pub mod Atomic
pub mod Minted
pub mod Trace
pub mod Invariant
pub mod Growth
pub mod Ledger
pub mod RoundTrip
pub mod Offline
