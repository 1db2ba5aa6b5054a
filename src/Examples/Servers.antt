-- ===== src/Examples/Servers.antt =====
-- Two configured servers, one of them the administrator's, and files that cannot be used.
use Prim.Native.String
use general_agent_design.Common.{
  String, ◌≡◌, refl, true, false, Option, none, some, List, [], ◌∷◌, ◌==◌, if◌then◌else◌,
}
use general_agent_design.Common.Dict.{insert}
use general_agent_design.Domain.Json.{
  Value, int, pos, text, array, dict, no_element, element, no_member, member,
}
use general_agent_design.Guidance.Trust.{untrusted, interactive}
use general_agent_design.Tools.Runtime.{take_text}
use general_agent_design.Mcp.Outcome.{json_decode_error, Outcome, good, bad}
use general_agent_design.Mcp.Models.{McpConfigScope, admin, user, streamable_http, McpServerConfig}
use general_agent_design.Mcp.Sorting.{sort_by, insert_by, distinct}
use general_agent_design.Mcp.Config.Managed.{
  McpAdminPolicy, McpAdminConfig, parse_admin, string_list,
}
use general_agent_design.Mcp.Config.Row.{
  Host, Url, transport_value, read_transport, validate_url, check_endpoint, float_setting,
  parse_object, parse_server_config,
}
use general_agent_design.Mcp.Config.{
  Platform, McpConfigResolver, McpResolvedConfig, Parsing, server_rows, keep, parse_row, parse_rows,
  parse_source, project_identity, read_admin_config, admin_denial, judge_all, conclude, managed,
  collect_rows, resolve,
}
use general_agent_design.Mcp.Config.Everywhere.{All}
use general_agent_design.Mcp.Config.Permitted.{IsPermitted, resolve-IsPermitted}
use general_agent_design.Mcp.Config.Refusals.{resolve_closed}

abbrev url : Url
url = record { scheme = "https"; netloc = "a"; hostname = some "a" }

abbrev host : Host
host = record {
  show = λ v. "value";
  to_float = λ v. good v;
  canonical = λ v. "row";
  digest = λ s. s;
  parse_url = λ s. good url;
  is_absolute = λ s. true;
  resolve = λ root s. good s;
}

abbrev one_server : String → Value → Value
one_server name v = dict (member "mcpServers" (dict (member name v no_member)) no_member)

abbrev with_url : Value
with_url = dict (member "url" (text "https://a") no_member)

abbrev managed_file : Value
managed_file = dict (
    member "policy" (dict (member "deniedTools" (array (element (text "rm") no_element)) no_member))
      (member "mcpServers" (dict (member "m" with_url no_member)) no_member))

abbrev platform : Option (Outcome Value) → Option (Outcome Value) → Platform
platform admin_file user_file = record {
  host = host;
  floats = record { to_float = λ n. none; less = λ v w. false; equal = λ v w. false };
  file = λ p.
      if p == "admin/mcp.json"
      then admin_file
      else if p == "user/mcp.json"
      then user_file
      else none;
  join = λ a b. String.◌++◌ a (String.◌++◌ "/" b);
  fnmatch = λ a b. a == b;
  lower = λ s. s;
  casefold = λ s. s;
  message = λ e. "message";
  class_name = λ e. "Error";
}

abbrev resolver : McpConfigResolver
resolver = record {
  project_root = "project";
  trust = record {
    workspace_status = untrusted;
    source = interactive;
    guidance_allowed = false;
    skills_allowed = false;
    mcp_allowed = false;
    project_config_allowed = false;
    project_stdio_allowed = false;
  };
  user_root = "user";
  admin_root = "admin";
}

abbrev usual : Platform
usual = platform (some (good managed_file)) (some (good (one_server "u" with_url)))

abbrev server : String → McpConfigScope → List String → McpServerConfig
server name scope disabled = record {
  name = name;
  scope = scope;
  transport = streamable_http;
  enabled = true;
  required = false;
  command = none;
  args = [];
  cwd = none;
  env = [];
  env_vars = [];
  url = some "https://a";
  bearer_token_env_var = none;
  headers = [];
  auth_mode = "none";
  oauth_scopes = [];
  startup_timeout_seconds = int (pos 10);
  tool_timeout_seconds = int (pos 60);
  cleanup_timeout_seconds = int (pos 5);
  enabled_tools = [];
  disabled_tools = disabled;
  default_approval_mode = "inherit";
  tool_approval_overrides = [];
  always_load_tools = false;
  trusted = true;
  config_hash = "row";
}

abbrev policy : McpAdminPolicy
policy = record {
  disabled_servers = [];
  allowed_stdio_commands = [];
  allowed_http_domains = [];
  denied_http_domains = [];
  denied_tools = "rm" ∷ [];
}

abbrev found : McpAdminConfig × Parsing
found = (
  record { exists = true; valid = true; policy = policy; servers = member "m" with_url no_member },
  record { winners = ("m", server "m" admin []) ∷ []; blocked = []; diagnostics = [] },
)

abbrev resolved : McpResolvedConfig
resolved = record {
  servers = server "m" admin ("rm" ∷ []) ∷ server "u" user ("rm" ∷ []) ∷ [];
  blocked = [];
  diagnostics = [];
  admin_policy = policy;
}

finds : managed usual resolver ≡ good found
unfolding managed read_admin_config parse_admin string_list parse_rows parse_row keep
    parse_server_config parse_object read_transport transport_value check_endpoint validate_url
    float_setting insert
finds = refl

resolves : resolve usual resolver no_member ≡ good resolved
unfolding resolve managed collect_rows read_admin_config parse_admin string_list parse_source
    server_rows parse_rows parse_row keep parse_server_config parse_object read_transport
    transport_value check_endpoint validate_url float_setting insert conclude judge_all admin_denial
    sort_by insert_by distinct project_identity take_text
resolves = refl

resolve-IsPermitted_example :
    (policy ≡ policy)
    × All
        (IsPermitted usual resolver ("m" ∷ []) policy)
        (server "m" admin ("rm" ∷ []) ∷ server "u" user ("rm" ∷ []) ∷ [])
resolve-IsPermitted_example =
    resolve-IsPermitted usual resolver no_member found resolved finds resolves

abbrev broken : Platform
broken = platform (some (bad json_decode_error)) (some (good (one_server "u" with_url)))

abbrev nothing : McpResolvedConfig
nothing = record {
  servers = [];
  blocked = server "u" user [] ∷ [];
  diagnostics =
      "admin MCP configuration is invalid (Error)"
      ∷ "admin: invalid managed configuration; all MCP servers disabled" ∷ [];
  admin_policy = record policy { denied_tools = [] };
}

closes : resolve broken resolver no_member ≡ good nothing
unfolding resolve managed collect_rows read_admin_config parse_admin string_list parse_source
    server_rows parse_rows parse_row keep parse_server_config parse_object read_transport
    transport_value check_endpoint validate_url float_setting insert conclude judge_all admin_denial
    sort_by insert_by distinct project_identity take_text
closes = refl

resolve_closed_example : nothing.servers ≡ []
resolve_closed_example =
    resolve_closed broken resolver no_member (bad json_decode_error) json_decode_error nothing refl
      refl closes
