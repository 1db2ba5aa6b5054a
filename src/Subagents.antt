-- ===== src/Subagents.antt =====
-- Child agents: agent-harness/src/agent_harness/runtime/subagents and the types of
-- agent-harness/src/agent_harness/domain/subagents.py.
pub mod Types
pub mod Scheduler
