-- ===== src/Mcp/Config/Collections.antt =====
-- What MCPConfigResolver (agent-harness/src/agent_harness/mcp/config.py) reads and fills, and its `except`
-- clauses as tests of an exception.
use general_agent_design.Common.{
  String, Bool, true, false, Option, List, [], ◌∷◌, ◌++◌, ◌==◌, if◌then◌else◌,
}
use general_agent_design.Common.Dict.{Dict}
use general_agent_design.Domain.Json.{Value, dict, Members, no_member}
use general_agent_design.Domain.Numbers.{Floats, find_member}
use general_agent_design.Guidance.Trust.{ProjectTrustContext}
use general_agent_design.Mcp.Outcome.{
  Failure, configuration_error, os_error, json_decode_error, overflow_error, Outcome, good, bad,
}
use general_agent_design.Mcp.Models.{
  McpConfigScope, admin, user, local, project, bundled, McpTransport, stdio, streamable_http,
  McpServerConfig,
}
use general_agent_design.Mcp.Config.Managed.{McpAdminPolicy, as_object}
use general_agent_design.Mcp.Config.Row.{Host, value_or}

pub record McpResolvedConfig : Type 0 where
  pub servers : List McpServerConfig
  pub blocked : List McpServerConfig
  pub diagnostics : List String
  pub admin_policy : McpAdminPolicy

pub record McpConfigResolver : Type 0 where
  pub project_root : String
  pub trust : ProjectTrustContext
  pub user_root : String
  pub admin_root : String

-- What the resolver finds outside: `file` is `none` for a path that is no file, and otherwise what
-- reading and decoding it comes to; `message` is `str` and `class_name` the class of an exception.
pub record Platform : Type 0 where
  pub host : Host
  pub floats : Floats
  pub file : String → Option (Outcome Value)
  pub join : String → String → String
  pub fnmatch : String → String → Bool
  pub lower : String → String
  pub casefold : String → String
  pub message : Failure → String
  pub class_name : Failure → String

-- The collections that the resolver fills.
pub record Parsing : Type 0 where
  pub winners : Dict McpServerConfig
  pub blocked : List McpServerConfig
  pub diagnostics : List String

abbrev pub nothing_parsed : Parsing
nothing_parsed = record { winners = []; blocked = []; diagnostics = [] }

abbrev pub scope_text : McpConfigScope → String
scope_text admin = "admin"
scope_text user = "user"
scope_text local = "local"
scope_text project = "project"
scope_text bundled = "bundled"

abbrev pub is_admin : McpConfigScope → Bool
is_admin admin = true
is_admin _ = false

abbrev pub is_project : McpConfigScope → Bool
is_project project = true
is_project _ = false

abbrev pub is_stdio : McpTransport → Bool
is_stdio stdio = true
is_stdio streamable_http = false

abbrev pub is_empty : List String → Bool
is_empty [] = true
is_empty (_ ∷ _) = false

-- d.pop(k, None)
unfoldable pub remove {ℓ} : {V : Type ℓ} → String → Dict V → Dict V
remove k [] = []
remove k ((j, v) ∷ d) = if j == k then d else (j, v) ∷ remove k d

abbrev pub diagnose : String → Parsing → Parsing
diagnose m p = record p { diagnostics = p.diagnostics ++ (m ∷ []) }

-- except (TypeError, ValueError, MCPConfigurationError)
abbrev pub is_row_error : Failure → Bool
is_row_error os_error = false
is_row_error overflow_error = false
is_row_error _ = true

-- except (OSError, json.JSONDecodeError, MCPConfigurationError)
abbrev pub is_file_error : Failure → Bool
is_file_error (configuration_error _) = true
is_file_error os_error = true
is_file_error json_decode_error = true
is_file_error _ = false

-- The rows of a user's, project's or local file
unfoldable pub server_rows : Value → Outcome Members
server_rows (dict ms) =
    as_object "server map must be an object" (
      value_or (value_or (dict no_member) (find_member "servers" ms)) (find_member "mcpServers" ms))
server_rows _ = good no_member

abbrev pub and_then {ℓ} :
    {A : Type ℓ} → Parsing × Outcome (Unit {0}) → (Parsing → A) → (Failure → Parsing → A) → A
and_then (p, good _) f g = f p
and_then (p, bad e) f g = g e p
