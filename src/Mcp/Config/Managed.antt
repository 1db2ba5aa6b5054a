-- ===== src/Mcp/Config/Managed.antt =====
-- The managed configuration of agent-harness/src/agent_harness/mcp/config.py: the policy and the servers of
-- a machine's administrator (MCPAdminPolicy, MCPAdminConfig, _read_admin_config).
use general_agent_design.Common.{
  String, Bool, true, false, List, [], ◌∷◌, Option, none, some, if◌then◌else◌,
}
use general_agent_design.Domain.Json.{Value, text, array, dict, Members, no_member, elements_of}
use general_agent_design.Domain.Numbers.{find_member}
use general_agent_design.Tools.Schema.{at}
use general_agent_design.Mcp.Outcome.{
  Failure, configuration_error, overflow_error, Outcome, good, bad, ◌>>=◌,
}

pub record McpAdminPolicy : Type 0 where
  pub disabled_servers : List String
  pub allowed_stdio_commands : List String
  pub allowed_http_domains : List String
  pub denied_http_domains : List String
  pub denied_tools : List String

abbrev pub no_policy : McpAdminPolicy
no_policy = record {
  disabled_servers = [];
  allowed_stdio_commands = [];
  allowed_http_domains = [];
  denied_http_domains = [];
  denied_tools = [];
}

pub record McpAdminConfig : Type 0 where
  pub exists : Bool
  pub valid : Bool
  pub policy : McpAdminPolicy
  pub servers : Members

-- except (OSError, json.JSONDecodeError, MCPConfigurationError, TypeError, ValueError)
abbrev pub is_admin_error : Failure → Bool
is_admin_error overflow_error = false
is_admin_error _ = true

abbrev pub all_texts : List Value → Bool
all_texts [] = true
all_texts (text s ∷ vs) = all_texts vs
all_texts (_ ∷ vs) = false

abbrev pub text_list : List Value → List String
text_list [] = []
text_list (text s ∷ vs) = s ∷ text_list vs
text_list (_ ∷ vs) = text_list vs

abbrev pub listed : String → Option Value → Outcome (List String)
listed name none = good []
listed name (some (array vs)) =
    if all_texts (elements_of vs)
    then good (text_list (elements_of vs))
    else bad (configuration_error (at "admin policy " (at name " must be a string array")))
listed name (some _) =
    bad (configuration_error (at "admin policy " (at name " must be a string array")))

-- _string_list
unfoldable pub string_list : Members → String → Outcome (List String)
string_list row name = listed name (find_member name row)

-- The object under a key, which is empty if the key is absent
abbrev pub object_or_empty : String → Option Value → Outcome Members
object_or_empty m none = good no_member
object_or_empty m (some (dict ms)) = good ms
object_or_empty m (some _) = bad (configuration_error m)

-- isinstance(v, dict), or an error
abbrev pub as_object : String → Value → Outcome Members
as_object m (dict ms) = good ms
as_object m _ = bad (configuration_error m)

-- The policy and the rows of the managed file
unfoldable pub parse_admin : Value → Outcome McpAdminConfig
parse_admin raw = do
  ms ← as_object "admin config must be an object" raw
  policy ← object_or_empty "admin policy must be an object" (find_member "policy" ms)
  rows ← object_or_empty "admin server map must be an object" (find_member "mcpServers" ms)
  disabled ← string_list policy "disabledServers"
  commands ← string_list policy "allowedStdioCommands"
  allowed ← string_list policy "allowedHttpDomains"
  denied ← string_list policy "deniedHttpDomains"
  tools ← string_list policy "deniedTools"
  good (record {
    exists = true;
    valid = true;
    policy = record {
      disabled_servers = disabled;
      allowed_stdio_commands = commands;
      allowed_http_domains = allowed;
      denied_http_domains = denied;
      denied_tools = tools;
    };
    servers = rows;
  })

abbrev pub absent_admin : McpAdminConfig
absent_admin = record { exists = false; valid = true; policy = no_policy; servers = no_member }

abbrev pub invalid_admin : McpAdminConfig
invalid_admin = record { exists = true; valid = false; policy = no_policy; servers = no_member }
