-- ===== src/Examples.antt =====
-- The theorems at work on concrete inputs.
mod Agents
mod Hosts
mod Access
mod Approvals
mod Scheduling
mod Catalogs
mod Histories
mod Turns
mod Tools
mod Checkpoints
mod Compactions
mod Guidance
mod Skills
mod Servers
mod Connections
