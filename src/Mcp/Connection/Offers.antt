-- ===== src/Mcp/Connection/Offers.antt =====
-- What a server and its transport answer to agent-harness/src/agent_harness/mcp/connection.py: the SDK as a
-- parameter, and the exceptions that come of it.
use general_agent_design.Common.{ℕ, String, Bool, true, false, Option, none, some, List, []}
use general_agent_design.Domain.Errors.{Exception, value_error, other, Result, ok, err}
use general_agent_design.Domain.Json.{Value, Members}
use general_agent_design.Mcp.Pagination.{Server, Catalog, collect_paginated}
use general_agent_design.Mcp.Results.{CallToolResult}
use general_agent_design.Mcp.Connection.State.{
  McpException, cancelled, outcome_unknown, connection_error, protocol_error, transport_error,
  tool_execution_error, input_validation, raised, Capabilities, Reply, returned, threw, Step, lift,
  ◌>>◌, require_session,
}

pub record RawTool : Type 0 where
  pub name : String
  pub description : Option String
  pub input_schema : Members
  pub output_schema : Option Members
  pub annotations : Option Members

pub record RawResource : Type 0 where
  pub uri : String
  pub name : String
  pub description : Option String
  pub mime_type : Option String

pub record RawPrompt : Type 0 where
  pub name : String
  pub description : Option String
  pub arguments : List Members

-- Messages of the server: an exception, a notification that a list has changed, or any other
pub data Message : Type 0 where
  message_error list_changed other_message : Message

-- What the n-th opening, stop, refresh or call meets. `check_schema` is the fault of a schema, and
-- `invalid` that of a value by a schema.
pub record Sdk : Type 0 where
  pub open_transport : ℕ → Reply Capabilities
  pub stop : ℕ → Reply (Unit {0})
  pub tool_pages : ℕ → Server RawTool
  pub resource_pages : ℕ → Server RawResource
  pub template_pages : ℕ → Server Members
  pub prompt_pages : ℕ → Server RawPrompt
  pub arriving : ℕ → List Message
  pub call : ℕ → String → Members → Reply CallToolResult
  pub check_schema : Members → Option String
  pub invalid : Value → Members → Option String
  pub dumps : Value → String
  pub fnmatch : String → String → Bool
  pub ascii : String → String
  pub digest : String → String → String
  pub stripped : String → String
  pub casefold : String → String
  pub has_text : String → String → Bool

-- isinstance(exc, asyncio.CancelledError)
abbrev pub is_cancelled : McpException → Bool
is_cancelled cancelled = true
is_cancelled _ = false

-- `str(exc)`
abbrev pub message_of : McpException → String
message_of cancelled = ""
message_of outcome_unknown =
    "MCP session expired during tool execution; the outcome is unknown and was not retried"
message_of (connection_error m) = m
message_of (protocol_error m) = m
message_of (transport_error m) = m
message_of (tool_execution_error m) = m
message_of (input_validation m) = m
message_of (raised r) = r.message

-- An exception of the pagination
abbrev pub as_exception : Exception → McpException
as_exception Exception.cancelled = cancelled
as_exception (other m) = protocol_error m
as_exception (value_error m) = raised (record { status_codes = []; message = m })
as_exception _ = raised (record { status_codes = []; message = "" })

-- The fuel is enough: one round for each page that is allowed, and one more.
abbrev pub pages : {A : Type 0} → Option (Result (Catalog A)) → Reply (Catalog A)
pages (some (ok c)) = returned c
pages (some (err x)) = threw (as_exception x)
pages none = threw (raised (record { status_codes = []; message = "" }))

abbrev pub collected : {A : Type 0} → ℕ → Server A → Step (Catalog A)
collected max_items server = do
  require_session
  lift (pages (collect_paginated server 100 max_items 101))
