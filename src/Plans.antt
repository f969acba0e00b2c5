-- ===== src/Plans.antt =====
-- Plans and their revisions: src/agentcy/agent_runtime/services/plan_revision_utils.py and
-- src/agentcy/agent_runtime/services/plan_validator.py.
pub mod Graph
pub mod Delta
pub mod Runtime
pub mod Validator
pub mod Gate
mod Witnesses
