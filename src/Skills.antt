-- ===== src/Skills.antt =====
-- The skills of agent-harness/src/agent_harness/skills/: their records, the gates of an invocation, and
-- the executions that narrow the tools of a turn.
mod Selections
pub mod Models
pub mod Activation
pub mod Catalog
pub mod Execution
