-- ===== src/Agent.antt =====
-- The agent loop: agent-harness/src/agent_harness/runtime/agent_loop.py and completion.py.
pub mod State
pub mod Action
pub mod Completion
pub mod Loop
