-- ===== src/Security.antt =====
-- Permissions: agent-harness/src/agent_harness/security, less the approval prompt's rendering.
pub mod Models
pub mod Rules
pub mod PathPolicy
pub mod Engine
pub mod Hooks
pub mod Grants
pub mod Approval
