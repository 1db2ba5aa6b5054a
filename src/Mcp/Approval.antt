-- ===== src/Mcp/Approval.antt =====
-- agent-harness/src/agent_harness/mcp/approval_policy.py, and what the permission engine sees of a remote
-- tool (MCPRuntime._adapter of agent-harness/src/agent_harness/mcp/runtime.py).
pub mod Waivers
use general_agent_design.Common.{
  String, Bool, false, not, ◌&&◌, ◌||◌, Option, none, some, List, [], ◌∷◌, ◌==◌, if◌then◌else◌,
}
use general_agent_design.Domain.Json.{Value, bool}
use general_agent_design.Domain.Numbers.{find_member}
use general_agent_design.Domain.Tools.{
  RiskLevel, medium, high, external, ToolDefinition, mcp_tool_call, network_access,
  external_side_effect,
}
use general_agent_design.Security.Models.{PermissionDecision, allow, ask, deny}
use general_agent_design.Mcp.Outcome.{Outcome, good, bad, ◌>>=◌, value_error}
use general_agent_design.Mcp.Models.{McpServerConfig, McpToolRecord}
use general_agent_design.Mcp.Config.{is_project}

pub data McpApprovalMode : Type 0 where
  inherit always writes never : McpApprovalMode

pub record McpApprovalDecision : Type 0 where
  pub mode : McpApprovalMode
  pub decision : Option PermissionDecision
  pub reason : String

-- MCPApprovalMode(s)
abbrev pub mode_of : String → Outcome McpApprovalMode
mode_of s =
    if s == "inherit"
    then good inherit
    else if s == "always"
    then good always
    else if s == "writes"
    then good writes
    else if s == "never"
    then good never
    else bad value_error

abbrev pub mode_text : McpApprovalMode → String
mode_text inherit = "inherit"
mode_text always = "always"
mode_text writes = "writes"
mode_text never = "never"

-- dict(pairs).get(k, default): the last pair of a key counts.
abbrev pub last_of : String → String → List (String × String) → String
last_of k default [] = default
last_of k default ((j, v) ∷ ps) = if j == k then last_of k v ps else last_of k default ps

-- annotations.get(k) is True
abbrev pub is_true : Option Value → Bool
is_true (some (bool b)) = b
is_true _ = false

-- A server that is trusted says that the tool reads only and does not destroy.
abbrev pub is_safe_read : McpServerConfig → McpToolRecord → Bool
is_safe_read server tool =
    server.trusted
    && (is_true (find_member "readOnlyHint" tool.annotations)
        && not (is_true (find_member "destructiveHint" tool.annotations)))

abbrev pub configured : McpServerConfig → McpToolRecord → String
configured server tool =
    last_of tool.remote_name server.default_approval_mode server.tool_approval_overrides

abbrev pub decide : McpServerConfig → McpToolRecord → McpApprovalMode → McpApprovalDecision
decide server tool always = record {
  mode = always;
  decision = some ask;
  reason = "MCP approval mode always";
}
decide server tool never = record {
  mode = never;
  decision = some allow;
  reason = "MCP layer adds no approval";
}
decide server tool writes = record {
  mode = writes;
  decision = if is_safe_read server tool then some allow else some ask;
  reason =
      if is_safe_read server tool
      then "Trusted read-only MCP annotation"
      else "MCP write or untrusted annotation";
}
decide server tool inherit = record {
  mode = inherit;
  decision = none;
  reason = "Inherited host permission policy";
}

-- MCPApprovalResolver.resolve
unfoldable pub resolve_approval : McpServerConfig → McpToolRecord → Outcome McpApprovalDecision
resolve_approval server tool =
    mode_of (configured server tool) >>= λ mode. good (decide server tool mode)

-- PermissionDecision.value
abbrev pub decision_text : Option PermissionDecision → Option String
decision_text none = none
decision_text (some allow) = some "ALLOW"
decision_text (some ask) = some "ASK"
decision_text (some deny) = some "DENY"

abbrev pub risk_of : McpServerConfig → RiskLevel
risk_of server =
    if is_project server.scope
      || (server.default_approval_mode == "always" || server.default_approval_mode == "writes")
    then high
    else medium

abbrev pub adapted : McpServerConfig → McpToolRecord → McpApprovalDecision → ToolDefinition
adapted server tool approval = record {
  name = tool.canonical_name;
  risk_level = risk_of server;
  side_effect = external;
  required_capabilities = mcp_tool_call ∷ network_access ∷ external_side_effect ∷ [];
  requires_sandbox = false;
  mcp_server = some tool.server_name;
  mcp_approval_mode = some (mode_text approval.mode);
  mcp_approval_decision = decision_text approval.decision;
}

-- MCPRuntime._adapter
unfoldable pub adapter : McpServerConfig → McpToolRecord → Outcome ToolDefinition
adapter server tool =
    resolve_approval server tool >>= λ approval. good (adapted server tool approval)
