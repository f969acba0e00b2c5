-- ===== src/Tracker.antt =====
-- The tracker of pipeline runs, src/agentcy/agent_runtime/tracker.py, with the documents that it
-- reads and writes.
pub mod LruSet
pub mod Status
pub mod Run
pub mod Sequence
pub mod Finals
pub mod Reforward
pub mod Handler
mod Samples
mod Witnesses
