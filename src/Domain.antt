-- ===== src/Domain.antt =====
-- The vocabulary of the runtime: agent-harness/src/agent_harness/domain.
pub mod Errors
pub mod Json
pub mod Payload
pub mod Numbers
pub mod Tools
