-- ===== src/Mcp/Connection/State.antt =====
-- The state of an MCPServerConnection (agent-harness/src/agent_harness/mcp/connection.py), and steps that
-- change it and may raise; what was written before a raise stays. Texts leave out the server's name.
use general_agent_design.Common.{
  ℕ, String, Bool, true, false, ◌&&◌, Option, none, List, [], ◌∷◌, if◌then◌else◌,
}
use general_agent_design.Domain.Json.{Members}
use general_agent_design.Mcp.Models.{
  McpServerStatus, disabled, not_connected, connecting, ready, degraded, reconnecting,
  McpServerHealth, healthy, McpServerConfig, McpToolRecord, McpResourceRecord, McpPromptRecord,
}

-- An exception of the SDK: the status codes along its chain of causes, and its text.
pub record Raised : Type 0 where
  pub status_codes : List ℕ
  pub message : String

pub data McpException : Type 0 where
  cancelled outcome_unknown : McpException
  connection_error protocol_error transport_error : String → McpException
  tool_execution_error input_validation : String → McpException
  raised : Raised → McpException

-- The catalogs that the server offers with its capabilities
pub record Capabilities : Type 0 where
  pub tools : Bool
  pub resources : Bool
  pub prompts : Bool

-- `events` are the names that were audited, the newest first; `opened`, `stopped`, `refreshed` and
-- `called` count what was asked of the server and its transport.
pub record Connection : Type 0 where
  pub config : McpServerConfig
  pub status : McpServerStatus
  pub health : McpServerHealth
  pub session : Bool
  pub initialize_result : Option Capabilities
  pub transport_task : Bool
  pub tools : List McpToolRecord
  pub resources : List McpResourceRecord
  pub prompts : List McpPromptRecord
  pub resource_templates : List Members
  pub error : Option String
  pub catalog_stale : Bool
  pub catalog_page_count : ℕ
  pub catalog_truncated : Bool
  pub closing : Bool
  pub has_catalog_snapshot : Bool
  pub generation : ℕ
  pub events : List String
  pub opened : ℕ
  pub stopped_count : ℕ
  pub refreshed : ℕ
  pub called : ℕ

-- MCPServerConnection.__init__
abbrev pub new_connection : McpServerConfig → Connection
new_connection config = record {
  config = config;
  status = if config.enabled then not_connected else disabled;
  health = healthy;
  session = false;
  initialize_result = none;
  transport_task = false;
  tools = [];
  resources = [];
  prompts = [];
  resource_templates = [];
  error = none;
  catalog_stale = false;
  catalog_page_count = 0;
  catalog_truncated = false;
  closing = false;
  has_catalog_snapshot = false;
  generation = 0;
  events = [];
  opened = 0;
  stopped_count = 0;
  refreshed = 0;
  called = 0;
}

pub data Reply {ℓ} (A : Type ℓ) : Type ℓ where
  returned : A → Reply A
  threw : McpException → Reply A

abbrev pub Step : Type 0 → Type 0
Step A = Connection → Reply A × Connection

abbrev pub Done : Type 0
Done = Reply (Unit {0}) × Connection

module _ {A : Type 0} where
  abbrev pub pure : A → Step A
  pure a s = (returned a, s)

  abbrev pub throw : McpException → Step A
  throw e s = (threw e, s)

  abbrev pub lift : Reply A → Step A
  lift r s = (r, s)

  abbrev pub gets : (Connection → A) → Step A
  gets f s = (returned (f s), s)

  -- try: m except: handler
  abbrev pub handled : Reply A × Connection → (McpException → Step A) → Reply A × Connection
  handled (returned a, s) h = (returned a, s)
  handled (threw e, s) h = h e s

  unfoldable pub attempt : Step A → (McpException → Step A) → Step A
  attempt m h s = handled (m s) h

abbrev pub modify : (Connection → Connection) → Step (Unit {0})
modify f s = (returned tt, f s)

abbrev pub and_then : {A B : Type 0} → Reply A × Connection → (A → Step B) → Reply B × Connection
and_then (returned a, s) f = f a s
and_then (threw e, s) f = (threw e, s)

infixl 5 ◌>>=◌ ◌>>◌
unfoldable pub ◌>>=◌ : {A B : Type 0} → Step A → (A → Step B) → Step B
◌>>=◌ m f s = and_then (m s) f

abbrev pub ◌>>◌ : {A B : Type 0} → Step A → Step B → Step B
m >> n = m >>= λ _. n

-- _emit
abbrev pub emit : String → Step (Unit {0})
emit event = modify (λ s. record s { events = event ∷ s.events })

abbrev pub is_ready_status : McpServerStatus → Bool
is_ready_status ready = true
is_ready_status degraded = true
is_ready_status _ = false

-- MCPServerConnection.is_usable
unfoldable pub is_usable : Connection → Bool
is_usable s = s.session && (s.has_catalog_snapshot && is_ready_status s.status)

abbrev pub is_live_status : McpServerStatus → Bool
is_live_status connecting = true
is_live_status reconnecting = true
is_live_status ready = true
is_live_status degraded = true
is_live_status _ = false

abbrev pub require_if : Bool → Step (Unit {0})
require_if true = pure tt
require_if false = throw (connection_error "MCP server is not ready")

-- _require_session
unfoldable pub require_session : Step (Unit {0})
require_session s = require_if (s.session && is_live_status s.status) s
