-- ===== src/Runtime.antt =====
-- The run loop and its limits: agent-harness/src/agent_harness/runtime.
pub mod Budgets
