-- ===== src/Mcp/Config/Row.antt =====
-- parse_server_config of agent-harness/src/agent_harness/mcp/config.py: from a JSON entry to a server. What
-- Python and its libraries do with texts, numbers, paths and URLs is the parameter `Host`.
use general_agent_design.Common.{
  String, Bool, true, false, not, ◌&&◌, ◌||◌, Option, none, some, List, [], ◌∷◌, map, ◌==◌,
  if◌then◌else◌,
}
use general_agent_design.Domain.Json.{
  pos, Value, null, bool, int, text, array, dict, Elements, Members, no_member, member, elements_of,
  present,
}
use general_agent_design.Domain.Numbers.{find_member}
use general_agent_design.Tools.Runtime.{truthy, characters, key_elements}
use general_agent_design.Mcp.Outcome.{
  Outcome, good, bad, ◌>>=◌, ◌>>◌, configuration_error, value_error, type_error,
}
use general_agent_design.Mcp.Models.{
  McpConfigScope, admin, user, local, McpTransport, stdio, streamable_http, McpServerConfig,
}
use general_agent_design.Mcp.Sorting.{sort_pairs}

-- What `urlparse` finds in a URL.
pub record Url : Type 0 where
  pub scheme : String
  pub netloc : String
  pub hostname : Option String

-- `show` is `str` of a value that is no text, `canonical` its JSON text with sorted keys, `digest` the
-- SHA-256 of a text; `resolve` joins a path to a root and follows links.
pub record Host : Type 0 where
  pub show : Value → String
  pub to_float : Value → Outcome Value
  pub canonical : Value → String
  pub digest : String → String
  pub parse_url : String → Outcome Url
  pub is_absolute : String → Bool
  pub resolve : String → String → Outcome String

abbrev pub value_or : Value → Option Value → Value
value_or d none = d
value_or d (some v) = v

-- The texts of a list of pairs, of a dict that may stand under a key
abbrev pub truthy_some : Option Value → Bool
truthy_some none = false
truthy_some (some v) = truthy v

-- `a or b` of two members
abbrev pub or_value : Option Value → Value → Value
or_value o v = if truthy_some o then value_or v o else v

-- isinstance(v, Hashable)
abbrev pub is_hashable : Value → Bool
is_hashable (array _) = false
is_hashable (dict _) = false
is_hashable _ = true

abbrev pub is_text : String → Value → Bool
is_text s (text t) = s == t
is_text s _ = false

-- MCPTransport(s)
abbrev pub transport_of : String → Outcome McpTransport
transport_of s =
    if s == "stdio"
    then good stdio
    else if s == "streamable_http"
    then good streamable_http
    else bad value_error

module _ (h : Host) where
  abbrev pub str : Value → String
  str (text s) = s
  str v = h.show v

  -- `str(row[k]) if row.get(k) else None`
  abbrev pub optional_text : Option Value → Option String
  optional_text o = if truthy_some o then some (str (value_or null o)) else none

  abbrev pub texts : Elements → List String
  texts vs = map str (elements_of vs)

  -- tuple(map(str, row.get(k, [])))
  abbrev pub text_tuple : Option Value → Outcome (List String)
  text_tuple none = good []
  text_tuple (some (array vs)) = good (texts vs)
  text_tuple (some (text s)) = good (texts (characters s))
  text_tuple (some (dict ms)) = good (texts (key_elements ms))
  text_tuple (some _) = bad type_error

  abbrev pub text_pairs : Members → List (String × String)
  text_pairs no_member = []
  text_pairs (member k v ms) = (k, str v) ∷ text_pairs ms

  -- tuple(sorted(...)) if isinstance(d, dict) else ()
  abbrev pub pair_tuple : Option Value → List (String × String)
  pair_tuple (some (dict ms)) = sort_pairs (text_pairs ms)
  pair_tuple _ = []

  -- The value of "transport", "type", or what the presence of a URL says
  unfoldable pub transport_value : Members → Value
  transport_value row = or_value (find_member "transport" row) (
      or_value (find_member "type" row)
        (if truthy_some (find_member "url" row) then text "streamable_http" else text "stdio"))

  unfoldable pub read_transport : Members → Outcome McpTransport
  read_transport row =
      if not (is_hashable (transport_value row))
      then bad type_error
      else if is_text "http" (transport_value row)
          || is_text "streamable-http" (transport_value row)
      then good streamable_http
      else transport_of (str (transport_value row))

  abbrev pub is_loopback : Option String → Bool
  is_loopback none = false
  is_loopback (some s) = s == "localhost" || (s == "127.0.0.1" || s == "::1")

  abbrev pub is_allowed_url : Bool → Url → Bool
  is_allowed_url allow_insecure_http u =
      (u.scheme == "https" && not (u.netloc == ""))
      || ((u.scheme == "http" && is_loopback u.hostname)
          || (u.scheme == "http" && (not (u.netloc == "") && allow_insecure_http)))

  -- _validate_url
  unfoldable pub validate_url : String → Bool → Outcome (Unit {0})
  validate_url url allow_insecure_http = do
    u ← h.parse_url url
    if is_allowed_url allow_insecure_http u
        then good tt
        else bad
            (configuration_error "MCP URL must use HTTPS; clear-text HTTP is limited to loopback")

  -- A server runs a command or has a URL, as its transport demands, and a URL is a valid one.
  unfoldable pub check_endpoint :
      McpTransport → Option String → Option String → Bool → Outcome (Unit {0})
  check_endpoint stdio (some command) none insecure = good tt
  check_endpoint stdio _ _ insecure =
      bad (configuration_error "stdio requires command and forbids url")
  check_endpoint streamable_http none (some url) insecure = validate_url url insecure
  check_endpoint streamable_http _ _ insecure =
      bad (configuration_error "streamable_http requires url and forbids command")

  -- Path(str(row["cwd"])), in the project unless it is absolute
  abbrev pub working_directory : String → Option String → Outcome (Option String)
  working_directory project_root none = good none
  working_directory project_root (some cwd) =
      if h.is_absolute cwd
      then good (some cwd)
      else h.resolve project_root cwd >>= λ p. good (some p)

  -- `default if value is None else float(value)`
  abbrev pub float_or : Value → Value → Outcome Value
  float_or default null = good default
  float_or default v = h.to_float v

  -- _float_setting
  unfoldable pub float_setting : Members → String → String → Value → Outcome Value
  float_setting row primary legacy default =
      float_or default
        (value_or (value_or default (find_member legacy row)) (find_member primary row))

  abbrev pub is_trusted_scope : McpConfigScope → Bool
  is_trusted_scope admin = true
  is_trusted_scope user = true
  is_trusted_scope local = true
  is_trusted_scope _ = false

  -- parse_server_config of an object
  unfoldable pub parse_object : String → Members → McpConfigScope → String → Outcome McpServerConfig
  parse_object name row scope project_root = do
    transport ← read_transport row
    check_endpoint transport (optional_text (find_member "command" row))
        (optional_text (find_member "url" row))
        (truthy_some (find_member "allow_insecure_http" row))
    cwd ← working_directory project_root (optional_text (find_member "cwd" row))
    args ← text_tuple (find_member "args" row)
    env_vars ← text_tuple (find_member "env_vars" row)
    oauth_scopes ← text_tuple (find_member "oauth_scopes" row)
    startup ← float_setting row "startup_timeout_seconds" "startup_timeout_sec" (int (pos 10))
    tool ← float_setting row "tool_timeout_seconds" "tool_timeout_sec" (int (pos 60))
    cleanup ← h.to_float (value_or (int (pos 5)) (find_member "cleanup_timeout_seconds" row))
    enabled_tools ← text_tuple (find_member "enabled_tools" row)
    disabled_tools ← text_tuple (find_member "disabled_tools" row)
    good (record {
      name = name;
      scope = scope;
      transport = transport;
      enabled = truthy (value_or (bool true) (find_member "enabled" row));
      required = truthy_some (find_member "required" row);
      command = optional_text (find_member "command" row);
      args = args;
      cwd = cwd;
      env = pair_tuple (find_member "env" row);
      env_vars = env_vars;
      url = optional_text (find_member "url" row);
      bearer_token_env_var = present (find_member "bearer_token_env_var" row);
      headers = pair_tuple (find_member "headers" row);
      auth_mode = str (value_or (text "none") (find_member "auth_mode" row));
      oauth_scopes = oauth_scopes;
      startup_timeout_seconds = startup;
      tool_timeout_seconds = tool;
      cleanup_timeout_seconds = cleanup;
      enabled_tools = enabled_tools;
      disabled_tools = disabled_tools;
      default_approval_mode =
          str (value_or (text "inherit") (find_member "default_approval_mode" row));
      tool_approval_overrides = pair_tuple (find_member "tool_approval_overrides" row);
      always_load_tools = truthy_some (find_member "always_load_tools" row);
      trusted = is_trusted_scope scope;
      config_hash = h.digest (h.canonical (dict row));
    })

  -- parse_server_config
  unfoldable pub parse_server_config :
      String → Value → McpConfigScope → String → Outcome McpServerConfig
  parse_server_config name (dict row) scope project_root = parse_object name row scope project_root
  parse_server_config name _ scope project_root =
      bad (configuration_error "server entry must be an object")
