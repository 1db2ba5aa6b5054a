-- ===== src/Mcp/Models.antt =====
-- agent-harness/src/agent_harness/mcp/models.py. A number of seconds is the JSON value it is, and a path
-- a text.
pub mod Equality
use general_agent_design.Common.{String, ℕ, Bool, Option, List}
use general_agent_design.Domain.Json.{Value, Members}

pub data McpConfigScope : Type 0 where
  admin user local project bundled : McpConfigScope

pub data McpTransport : Type 0 where
  stdio streamable_http : McpTransport

pub data McpServerStatus : Type 0 where
  disabled blocked_untrusted not_connected connecting auth_required : McpServerStatus
  ready degraded reconnecting failed stopping stopped : McpServerStatus

pub data McpServerHealth : Type 0 where
  healthy degraded_health : McpServerHealth

pub record McpServerConfig : Type 0 where
  pub name : String
  pub scope : McpConfigScope
  pub transport : McpTransport
  pub enabled : Bool
  pub required : Bool
  pub command : Option String
  pub args : List String
  pub cwd : Option String
  pub env : List (String × String)
  pub env_vars : List String
  pub url : Option String
  pub bearer_token_env_var : Option Value
  pub headers : List (String × String)
  pub auth_mode : String
  pub oauth_scopes : List String
  pub startup_timeout_seconds : Value
  pub tool_timeout_seconds : Value
  pub cleanup_timeout_seconds : Value
  pub enabled_tools : List String
  pub disabled_tools : List String
  pub default_approval_mode : String
  pub tool_approval_overrides : List (String × String)
  pub always_load_tools : Bool
  pub trusted : Bool
  pub config_hash : String

pub record McpToolRecord : Type 0 where
  pub server_name : String
  pub remote_name : String
  pub canonical_name : String
  pub description : String
  pub input_schema : Members
  pub output_schema : Option Members
  pub annotations : Members

pub record McpResourceRecord : Type 0 where
  pub server_name : String
  pub uri : String
  pub name : String
  pub description : String
  pub mime_type : Option String

pub record McpPromptRecord : Type 0 where
  pub server_name : String
  pub name : String
  pub description : String
  pub arguments : List Members
