-- ===== src/Registry.antt =====
-- The registry of live agents: their entries, the store with its heartbeats, and the policy that
-- judges how fresh an entry is.
pub mod Entry
pub mod Policy
pub mod Store
mod Witnesses
