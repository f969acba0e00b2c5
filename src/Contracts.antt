-- ===== src/Contracts.antt =====
-- The contract net: bids, their ranking, the awards and the cycle of rounds that leads to them.
pub mod Ranking
pub mod Bids
pub mod Agents
pub mod Awards
pub mod Drafts
pub mod Specs
pub mod Cycle
mod Samples
mod Witnesses
