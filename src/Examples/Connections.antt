-- ===== src/Examples/Connections.antt =====
-- A connection to a server with one tool, and what the permission engine says of that tool.
use general_agent_design.Common.{
  String, ◌≤◌, ◌≡◌, refl, true, false, none, some, List, [], ◌∷◌, ◌==◌, arith, if◌then◌else◌,
}
use general_agent_design.Domain.Errors.{ok}
use general_agent_design.Domain.Json.{int, pos, no_member, member, bool}
use general_agent_design.Mcp.Outcome.{good}
use general_agent_design.Mcp.Models.{user, streamable_http, McpServerConfig, McpToolRecord, ready}
use general_agent_design.Mcp.Naming.{
  squeeze, strip_left, strip_right, readable_component, canonical_tool_name,
}
use general_agent_design.Mcp.Naming.Safety.{all_word, canonical_tool_name_safe}
use general_agent_design.Mcp.Results.{text_content}
use general_agent_design.Mcp.Connection.{
  Connection, new_connection, returned, threw, raised, Sdk, RawTool, list_changed, refresh_catalogs,
  connect, call_tool,
}
use general_agent_design.Domain.Tools.{
  Capability-discrete, ToolDefinition, mcp_tool_call, network_access, external_side_effect,
}
use general_agent_design.Security.Models.{
  Principal, read_only_mode, untrusted, allow, deny, mcp_mode,
}
use general_agent_design.Security.Rules.{resolve_rule_decision}
use general_agent_design.Security.Engine.{
  missing, evaluate, evaluate_paths, by_rules, by_profile, matching_rules, evaluate_mcp_policy,
  default_decision, result,
}
use general_agent_design.Examples.Hosts.{host, principal, policy}
use general_agent_design.Mcp.Approval.{
  McpApprovalMode, never, writes, mode_of, configured, decide, resolve_approval, adapted, adapter,
}
use general_agent_design.Mcp.Approval.Waivers.{IsWaived, adapter-IsWaived}
use general_agent_design.Mcp.Connection.Refreshes.{IsRefreshed, refresh_catalogs-IsRefreshed}
use general_agent_design.Mcp.Connection.Calls.{IsSent, call_tool-IsSent}
use general_agent_design.Mcp.Connection.Lifecycle.{IsSettled, connect-IsSettled}
use general_agent_design.Mcp.Manager.{new_manager, start}
use general_agent_design.Mcp.Manager.Starts.{configs_of, IsStarted, start-IsStarted}

abbrev config : McpServerConfig
config = record {
  name = "u";
  scope = user;
  transport = streamable_http;
  enabled = true;
  required = false;
  command = none;
  args = [];
  cwd = none;
  env = [];
  env_vars = [];
  url = some "https://a";
  bearer_token_env_var = none;
  headers = [];
  auth_mode = "none";
  oauth_scopes = [];
  startup_timeout_seconds = int (pos 10);
  tool_timeout_seconds = int (pos 60);
  cleanup_timeout_seconds = int (pos 5);
  enabled_tools = [];
  disabled_tools = [];
  default_approval_mode = "never";
  tool_approval_overrides = [];
  always_load_tools = false;
  trusted = true;
  config_hash = "row";
}

abbrev raw : RawTool
raw = record {
  name = "do it";
  description = none;
  input_schema = no_member;
  output_schema = none;
  annotations = none;
}

abbrev sdk : Sdk
sdk = record {
  open_transport = λ n. returned (record { tools = true; resources = false; prompts = false });
  stop = λ n. returned tt;
  tool_pages = λ n i c. ok (record { items = raw ∷ []; next_cursor = none });
  resource_pages = λ n i c. ok (record { items = []; next_cursor = none });
  template_pages = λ n i c. ok (record { items = []; next_cursor = none });
  prompt_pages = λ n i c. ok (record { items = []; next_cursor = none });
  arriving = λ n. list_changed ∷ [];
  call = λ n name arguments.
      returned (record {
        content = text_content "done" ∷ [];
        structured_content = none;
        is_error = false;
      });
  check_schema = λ s. none;
  invalid = λ v s. none;
  dumps = λ v. "value";
  fnmatch = λ a b. a == b;
  ascii = λ s. s;
  digest = λ a b. "0123456789abcdef";
  stripped = λ s. s;
  casefold = λ s. s;
  has_text = λ a b. false;
}

names_tool :
    canonical_tool_name (λ s. s) (λ a b. "0123456789abcdef") "my server" "do it!" 64 8
    ≡ "mcp__my_server__do_it__01234567"
unfolding canonical_tool_name readable_component squeeze strip_left strip_right
    general_agent_design.Tools.Runtime.take_text
names_tool = refl

canonical_tool_name_safe_example :
    (Prim.Native.String.count
        (canonical_tool_name (λ s. s) (λ a b. "0123456789abcdef") "my server" "do it!" 64 8)
      ≤ 64)
    × (all_word (canonical_tool_name (λ s. s) (λ a b. "0123456789abcdef") "my server" "do it!" 64 8)
        ≡ true)
canonical_tool_name_safe_example =
    canonical_tool_name_safe (λ s. s) (λ a b. "0123456789abcdef") "my server" "do it!" 64 8
      (omega arith) refl

abbrev initialized : Connection
initialized = record (new_connection config) {
  session = true;
  transport_task = true;
  status = ready;
  initialize_result = some (record { tools = true; resources = false; prompts = false });
}

refresh_catalogs-IsRefreshed_example :
    IsRefreshed sdk
      (record { tools = true; resources = false; prompts = false })
      initialized
      (refresh_catalogs sdk initialized)
refresh_catalogs-IsRefreshed_example =
    refresh_catalogs-IsRefreshed sdk (record { tools = true; resources = false; prompts = false })
      initialized refl refl

connect-IsSettled_example : IsSettled (connect sdk (new_connection config))
connect-IsSettled_example = connect-IsSettled sdk (new_connection config) refl

-- Of two required servers one cannot be reached.
abbrev servers : List McpServerConfig
servers = record config { required = true } ∷ record config { name = "v"; required = true } ∷ []

abbrev reach : String → Sdk
reach name = if name == "u" then sdk else record sdk {
  open_transport = λ n. threw (raised (record { status_codes = []; message = "refused" }));
}

start-IsStarted_example :
    (configs_of (start reach (new_manager servers)).1 ≡ servers)
    × IsStarted (start reach (new_manager servers))
start-IsStarted_example = start-IsStarted reach servers

call_tool-IsSent_example : IsSent 0 (call_tool sdk "do it" no_member initialized)
call_tool-IsSent_example = call_tool-IsSent sdk "do it" no_member initialized

abbrev remote : McpToolRecord
remote = record {
  server_name = "u";
  remote_name = "do it";
  canonical_name = "mcp__u__do_it";
  description = "MCP tool";
  input_schema = no_member;
  output_schema = none;
  annotations = member "readOnlyHint" (bool true) no_member;
}

-- A principal that may read only, and is not trusted with more.
abbrev reader : Principal
reader = record principal {
  allowed_tools = "mcp__u__do_it" ∷ [];
  capabilities = mcp_tool_call ∷ network_access ∷ external_side_effect ∷ [];
  sandbox_mode = read_only_mode;
  approval_policy = untrusted;
}

abbrev remote_tool : McpServerConfig → McpApprovalMode → ToolDefinition
remote_tool server mode = adapted server remote (decide server remote mode)

denies_by_default : default_decision reader (remote_tool config never) ≡ deny
unfolding default_decision
denies_by_default = refl

abbrev careful : McpServerConfig
careful = record config { default_approval_mode = "writes" }

reads :
    evaluate host [] reader (remote_tool careful writes) [] policy
    ≡ ok (result allow (mcp_mode (some "writes")) reader policy)
unfolding evaluate missing Capability-discrete evaluate_paths by_rules matching_rules
    mathlib.Core.Bool.decide resolve_rule_decision by_profile evaluate_mcp_policy result
reads = refl

adapter-IsWaived_example :
    (mode : McpApprovalMode) × (mode_of (configured careful remote) ≡ good mode)
    × IsWaived careful remote mode
unfolding adapter resolve_approval matching_rules result
adapter-IsWaived_example =
    adapter-IsWaived host [] reader careful remote (remote_tool careful writes) [] policy
      (result allow (mcp_mode (some "writes")) reader policy) refl refl reads refl
