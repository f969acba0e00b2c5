-- ===== src/Topology.antt =====
-- Skeletons of workflows and the rules that change them.
pub mod Mutation
pub mod Conditions
mod Witnesses
