-- ===== src/Mcp/Manager.antt =====
-- agent-harness/src/agent_harness/mcp/manager.py. `sdk` is what the server of a name and its transport
-- answer. The connections share nothing, so that those that are made in parallel are made one after the
-- other here, and a cancellation meets them in that order.
pub mod Starts
use general_agent_design.Common.{
  String, Bool, true, false, ◌&&◌, Option, none, some, List, [], ◌∷◌, map, select, ◌==◌,
  if◌then◌else◌,
}
use Prim.Native.String
use general_agent_design.Mcp.Models.{McpServerConfig, McpServerStatus, failed, reconnecting}
use general_agent_design.Mcp.Connection.{
  Connection, new_connection, McpException, connection_error, raised, Reply, returned, threw, Done,
  Sdk, is_cancelled, message_of, is_usable, connect, close, modify, ◌>>=◌,
}

-- MCPServerManager.__init__, for servers with different names
unfoldable pub new_manager : List McpServerConfig → List Connection
new_manager configs = map new_connection configs

-- active_servers
unfoldable pub active_servers : List Connection → List Connection
active_servers cs = select is_usable cs

abbrev pub has_failed : McpServerStatus → Bool
has_failed failed = true
has_failed _ = false

-- failed_servers
unfoldable pub failed_servers : List Connection → List Connection
failed_servers cs = select (λ c. has_failed c.status) cs

-- "; ".join
abbrev pub join_messages : List McpException → String
join_messages [] = ""
join_messages (e ∷ []) = message_of e
join_messages (e ∷ es) = String.◌++◌ (message_of e) (String.◌++◌ "; " (join_messages es))

abbrev pub add_error : Bool → Option McpException → List McpException → List McpException
add_error true (some e) es = e ∷ es
add_error _ _ es = es

-- The errors of the required servers
unfoldable pub required_errors : List (Option McpException) → List Connection → List McpException
required_errors (r ∷ rs) (c ∷ cs) = add_error c.config.required r (required_errors rs cs)
required_errors _ _ = []

abbrev pub Started : Type 0 → Type 0
Started A = Reply A × List Connection

abbrev pub after_one :
    Option McpException
    → Connection
    → Started (List (Option McpException))
    → Started (List (Option McpException))
after_one r c (returned rs, ds) = (returned (r ∷ rs), c ∷ ds)
after_one r c (threw e, ds) = (threw e, c ∷ ds)

abbrev pub cancelled_if :
    Bool
    → McpException
    → Connection
    → List Connection
    → Started (List (Option McpException))
    → Started (List (Option McpException))
cancelled_if true e c cs rest = (threw e, c ∷ cs)
cancelled_if false e c cs rest = after_one (some e) c rest

-- connect_one, which catches all but a cancellation, and what it leaves to do
abbrev pub connect_one :
    Done
    → List Connection
    → Started (List (Option McpException))
    → Started (List (Option McpException))
connect_one (returned _, c) cs rest = after_one none c rest
connect_one (threw e, c) cs rest = cancelled_if (is_cancelled e) e c cs rest

module _ (sdk : String → Sdk) where
  unfoldable pub connect_all : List Connection → Started (List (Option McpException))
  connect_all [] = (returned [], [])
  connect_all (c ∷ cs) = connect_one (connect (sdk c.config.name) c) cs (connect_all cs)

  -- shutdown; what is raised is dropped
  unfoldable pub shutdown : List Connection → List Connection
  shutdown cs = map (λ c. (close (sdk c.config.name) c).1) cs

  abbrev pub conclude : List McpException → List Connection → Started (Unit {0})
  conclude [] cs = (returned tt, cs)
  conclude (e ∷ es) cs =
      let message = String.◌++◌ "Required MCP server failed: " (join_messages (e ∷ es)) in
      (threw (connection_error message), shutdown cs)

  abbrev pub judge : Started (List (Option McpException)) → Started (Unit {0})
  judge (returned rs, cs) = conclude (required_errors rs cs) cs
  judge (threw e, cs) = (threw e, cs)

  -- start
  unfoldable pub start : List Connection → Started (Unit {0})
  start cs = judge (connect_all cs)

  abbrev pub reconnect_one : Connection → Done
  reconnect_one c =
      let k = sdk c.config.name in
      (close k >>= λ _. modify (λ s. record s { status = reconnecting }) >>= λ _. connect k) c

  abbrev pub put_first : Done → List Connection → Started (Unit {0})
  put_first (r, c) cs = (r, c ∷ cs)

  abbrev pub keep_first : Connection → Started (Unit {0}) → Started (Unit {0})
  keep_first c (r, cs) = (r, c ∷ cs)

  -- reconnect; a missing key raises KeyError.
  unfoldable pub reconnect : String → List Connection → Started (Unit {0})
  reconnect name [] = (threw (raised (record { status_codes = []; message = name })), [])
  reconnect name (c ∷ cs) =
      let rest = reconnect name cs in
      if c.config.name == name then put_first (reconnect_one c) cs else keep_first c rest
