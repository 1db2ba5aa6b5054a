-- ===== src/Domain/Tools.antt =====
-- agent-harness/src/agent_harness/domain/tools.py and the enumerations of
-- agent-harness/src/agent_harness/security/models.py that classify a tool. The executor, the schemas
-- and the timeout of a definition are not kept here; of its metadata, the MCP entries that are read.
use general_agent_design.Common.{String, Bool, Option, List}

pub data Capability : Type 0 where
  file_read file_write file_delete command_execute package_install : Capability
  network_access local_network_access secret_read env_read git_write git_commit : Capability
  git_push subagent_create mcp_tool_call external_side_effect sandbox_escape : Capability

unfoldable pub Capability-discrete : Discrete Capability
Capability-discrete = hlevel

pub data RiskLevel : Type 0 where
  read_only low medium high critical : RiskLevel

pub data SideEffectType : Type 0 where
  no_effect filesystem process network external : SideEffectType

pub data ToolStatus : Type 0 where
  success error cancelled timeout : ToolStatus

pub record ToolDefinition : Type 0 where
  pub name : String
  pub risk_level : RiskLevel
  pub side_effect : SideEffectType
  pub required_capabilities : List Capability
  pub requires_sandbox : Bool
  pub mcp_server : Option String
  pub mcp_approval_mode : Option String
  pub mcp_approval_decision : Option String
