-- ===== src/Forwarder.antt =====
-- The forwarder of tasks to services.
pub mod Choice
mod Witnesses
