-- ===== src/Rollout.antt =====
-- The history of a thread on disk: agent-harness/src/agent_harness/rollout and threads/recorder.py.
pub mod Items
pub mod Integrity
pub mod Recorder
