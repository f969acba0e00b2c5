-- ===== src/Workflow.antt =====
-- The parser of workflow configurations, src/agentcy/rabbitmq_workflow/workflow_config_parser.py.
pub mod Kahn
pub mod Tasks
pub mod Order
pub mod Wiring
pub mod Parser
mod Witnesses
