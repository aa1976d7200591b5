-- ===== src/Scenarios.antt =====
-- Concrete inputs at which the theorems apply, by component.
mod Capabilities
mod Requests
mod Events
mod Pruning
mod Launches
mod Agents
mod Releases
mod Tripwires
mod Calls
mod Credentials
