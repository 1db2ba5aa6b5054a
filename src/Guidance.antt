-- ===== src/Guidance.antt =====
-- Guidance documents and the trust in a workspace: agent-harness/src/agent_harness/guidance.
pub mod Trust
pub mod Imports
