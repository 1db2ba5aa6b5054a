-- ===== src/Tools.antt =====
-- The execution of tool calls.
pub mod Schema
pub mod Runtime
