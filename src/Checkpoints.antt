-- ===== src/Checkpoints.antt =====
-- The durable state of a turn: agent-harness/src/agent_harness/checkpoints and recovery.
pub mod Envelope
pub mod Store
pub mod Manager
pub mod Recovery
pub mod Snapshot
pub mod Serializer
pub mod RoundTrip
pub mod Unreadable
pub mod Latest
pub mod Continuity
