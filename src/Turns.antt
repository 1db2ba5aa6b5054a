-- ===== src/Turns.antt =====
-- One turn of a thread: agent-harness/src/agent_harness/turns.
pub mod Mailbox
pub mod Controller
