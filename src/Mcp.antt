-- ===== src/Mcp.antt =====
-- The Model Context Protocol client of agent-harness/src/agent_harness/mcp/: which servers are configured,
-- connections to them, and their catalogs and tools.
pub mod Models
pub mod Outcome
pub mod Sorting
pub mod Pagination
pub mod Config
pub mod Manager
pub mod Naming
pub mod Approval
pub mod Results
pub mod Connection
