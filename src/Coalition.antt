-- ===== src/Coalition.antt =====
-- Coalitions of agents: src/agentcy/agent_runtime/services/coalition_executor.py.
pub mod Executor
mod Witnesses
