-- ===== src/Examples/Hosts.antt =====
-- A host whose paths have one component, and a principal and a tool on it.
use general_agent_design.Common.{String, false, none, some, [], ◌∷◌, ◌==◌}
use general_agent_design.Domain.Json.{Arguments, text}
use general_agent_design.Domain.Tools.{file_read, read_only, no_effect, ToolDefinition}
use general_agent_design.Security.Models.{
  workspace_write, on_request, PermissionDecision, user, Principal, FilePath, SandboxPolicy, Host,
}
use general_agent_design.Security.Rules.{PermissionRule}

abbrev posix : FilePath → String
posix [] = ""
posix (x ∷ xs) = x

abbrev pub host : Host
host = record {
  fnmatch = λ s p. s == p;
  render = λ v. "";
  show_names = λ cs. "";
  is_absolute = λ s. s == "/";
  parts = λ s. s ∷ [];
  canonical = λ p. p;
  posix = posix;
}

abbrev pub principal : Principal
principal = record {
  session_id = "s";
  thread_id = "t";
  turn_id = "u";
  agent_id = "main";
  parent_agent_id = none;
  depth = 0;
  allowed_tools = "read_file" ∷ [];
  capabilities = file_read ∷ [];
  sandbox_mode = workspace_write;
  approval_policy = on_request;
}

abbrev pub tool : ToolDefinition
tool = record {
  name = "read_file";
  risk_level = read_only;
  side_effect = no_effect;
  required_capabilities = file_read ∷ [];
  requires_sandbox = false;
  mcp_server = none;
  mcp_approval_mode = none;
  mcp_approval_decision = none;
}

abbrev pub policy : SandboxPolicy
policy = record {
  mode = workspace_write;
  workspace_root = "work" ∷ [];
  readable_roots = [];
  writable_roots = [];
  network_enabled = false;
  environment_allow = [];
  max_output_chars = 100;
}

abbrev pub at_path : String → Arguments
at_path p = ("path", text p) ∷ []

abbrev pub rule : PermissionDecision → PermissionRule
rule d = record {
  rule_id = "r";
  decision = d;
  source = user;
  tool = some "read_file";
  path = none;
  argv_prefix = [];
  agent = none;
  capability = none;
  trusted = false;
}
