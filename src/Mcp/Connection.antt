-- ===== src/Mcp/Connection.antt =====
-- agent-harness/src/agent_harness/mcp/connection.py: the lifecycle of a connection, and calls. Between two
-- steps of one operation no other operation of the connection runs; messages arrive during a refresh.
mod State
mod Offers
mod Records
mod Catalogs
mod Frames
pub mod Refreshes
pub mod Quiet
pub mod Calls
pub mod Lifecycle
use general_agent_design.Common.{
  ℕ, ◌+◌, String, Bool, true, false, not, ◌&&◌, ◌||◌, Option, none, some, List, [], ◌∷◌, any, eqb,
  ◌==◌, if◌then◌else◌,
}
use general_agent_design.Domain.Json.{Value, dict, Members}
use general_agent_design.Mcp.Models.{
  connecting, ready, reconnecting, failed, stopping, stopped, McpToolRecord,
}
use general_agent_design.Mcp.Results.{
  CallToolResult, McpNormalizedToolResult, normalize_tool_result, model_payload, error_message,
}
unfoldable pub use State.*
unfoldable pub use Offers.*
unfoldable pub use Records.*
unfoldable pub use Catalogs.*

module _ (k : Sdk) where
  -- _transport_owner up to the handshake, which the connecting task waits for
  unfoldable pub open_session : Step (Unit {0})
  open_session = do
    n ← gets (λ s. s.opened)
    modify (λ s. record s { transport_task = true; opened = s.opened + 1 })
    offered ← attempt (lift (k.open_transport n)) lost
    modify (λ s. record s {
      session = true;
      initialize_result = some offered;
      generation = s.generation + 1;
    })
    where
      lost : McpException → Step Capabilities
      lost e = modify (λ s. record s { session = false }) >> throw e

  abbrev pub released : Connection → Connection
  released s = record s { transport_task = false; session = false }

  -- The wait for the owner task, which may raise what the closing of the transport raises
  abbrev pub stop_task : Bool → Step (Unit {0})
  stop_task false = pure tt
  stop_task true = do
    n ← gets (λ s. s.stopped_count)
    modify (λ s. record s { stopped_count = s.stopped_count + 1 })
    attempt (lift (k.stop n)) (λ e. modify released >> throw e)
    modify released

  -- _stop_transport
  unfoldable pub stop_transport : Step (Unit {0})
  stop_transport s = stop_task s.transport_task s

  abbrev pub fail_connect : Bool → McpException → Step (Unit {0})
  fail_connect true e = do
    modify (λ s. record s { status = stopping })
    stop_transport
    emit "mcp.server_connect_cancelled"
    throw e
  fail_connect false e = do
    modify (λ s. record s { status = failed; error = some (message_of e) })
    stop_transport
    emit "mcp.server_failed"
    throw (connection_error (message_of e))

  unfoldable pub connect_failed : McpException → Step (Unit {0})
  connect_failed e = fail_connect (is_cancelled e) e

  abbrev pub connect_if : Bool → Step (Unit {0})
  connect_if false = pure tt
  connect_if true = do
    modify (λ s. record s { status = connecting })
    emit "mcp.server_connecting"
    attempt
        (open_session
          >> (refresh_catalogs k
              >> (modify (λ s. record s { status = ready }) >> emit "mcp.server_ready")))
        connect_failed

  -- connect
  unfoldable pub connect : Step (Unit {0})
  connect s = connect_if s.config.enabled s

  abbrev pub ended : Connection → Connection
  ended s = record s { status = stopped; closing = false; events = "mcp.server_stopped" ∷ s.events }

  abbrev pub close_if : Bool → Step (Unit {0})
  close_if false = pure tt
  close_if true = do
    modify (λ s. record s { closing = true; status = stopping })
    attempt stop_transport (λ e. modify ended >> throw e)
    modify ended

  -- close
  unfoldable pub close : Step (Unit {0})
  close s = close_if s.transport_task s

  abbrev pub reuse_or_connect : Bool → Step (Unit {0})
  reuse_or_connect true = emit "mcp.session_reinitialize_reused"
  reuse_or_connect false = do
    emit "mcp.session_expired"
    close
    modify (λ s. record s { status = reconnecting })
    connect
    emit "mcp.session_reinitialized"

  -- _reinitialize
  unfoldable pub reinitialize : ℕ → Step (Unit {0})
  reinitialize observed_generation s =
      reuse_or_connect (not (eqb s.generation observed_generation) && is_usable s) s

  abbrev pub codes_of : McpException → List ℕ
  codes_of (raised r) = r.status_codes
  codes_of _ = []

  -- _is_session_not_found
  unfoldable pub is_session_not_found : McpException → Bool
  is_session_not_found e =
      any (eqb 404) (codes_of e)
      || (k.stripped (k.casefold (message_of e)) == "session terminated"
          || (k.has_text "404" (k.casefold (message_of e))
              && (k.has_text "session" (k.casefold (message_of e))
                  || (k.has_text "not found" (k.casefold (message_of e))
                      || k.has_text "invalid" (k.casefold (message_of e))))))

  abbrev pub find_tool : String → List McpToolRecord → Option McpToolRecord
  find_tool name [] = none
  find_tool name (r ∷ rs) = if r.remote_name == name then some r else find_tool name rs

  abbrev pub checked : Option String → Reply (Unit {0})
  checked none = returned tt
  checked (some m) = threw (input_validation m)

  -- validate_mcp_value, which checks the schema first
  abbrev pub validate : Value → Members → Step (Unit {0})
  validate v schema = do lift (fault k (k.check_schema schema)); lift (checked (k.invalid v schema))

  abbrev pub validate_input : Members → Option McpToolRecord → Step (Unit {0})
  validate_input arguments none = pure tt
  validate_input arguments (some r) = validate (dict arguments) r.input_schema

  abbrev pub validate_content : Members → Option Members → Step (Unit {0})
  validate_content content none = pure tt
  validate_content content (some schema) = validate (dict content) schema

  abbrev pub validate_output : Option Members → Option McpToolRecord → Step (Unit {0})
  validate_output (some content) (some r) = validate_content content (kept_schema k r.output_schema)
  validate_output _ _ = pure tt

  -- The call itself: a request is sent if there is a session.
  unfoldable pub send_call : String → Members → Step CallToolResult
  send_call name arguments = do
    require_session
    n ← gets (λ s. s.called)
    modify (λ s. record s { called = s.called + 1 })
    lift (k.call n name arguments)

  abbrev pub lost_session : Bool → ℕ → McpException → Step CallToolResult
  lost_session true observed_generation e = do
    reinitialize observed_generation
    emit "mcp.tool_outcome_unknown"
    throw outcome_unknown
  lost_session false observed_generation e = throw (transport_error (message_of e))

  unfoldable pub call_failed : ℕ → McpException → Step CallToolResult
  call_failed observed_generation e =
      if is_cancelled e
      then throw e
      else lost_session (is_session_not_found e) observed_generation e

  abbrev pub refuse_error : Bool → McpNormalizedToolResult → Step (Unit {0})
  refuse_error false r = pure tt
  refuse_error true r = do
    emit "mcp.tool_execution_error"
    throw (tool_execution_error (error_message k.dumps r))

  -- The result, as the model is to see it
  unfoldable pub accept_result : Option McpToolRecord → CallToolResult → Step Members
  accept_result found result = do
    emit "mcp.tool_call_completed"
    refuse_error result.is_error (normalize_tool_result result)
    validate_output result.structured_content found
    pure (model_payload (normalize_tool_result result))

  abbrev pub refresh_if : Bool → Step (Unit {0})
  refresh_if true = refresh_catalogs k
  refresh_if false = pure tt

  -- call_tool
  unfoldable pub call_tool : String → Members → Step Members
  call_tool name arguments = do
    stale ← gets (λ s. s.catalog_stale)
    refresh_if stale
    found ← gets (λ s. find_tool name s.tools)
    validate_input arguments found
    emit "mcp.tool_call_started"
    observed_generation ← gets (λ s. s.generation)
    result ← attempt (send_call name arguments) (call_failed observed_generation)
    accept_result found result

  abbrev pub retried : {A : Type 0} → Bool → Step A → ℕ → McpException → Step A
  retried true operation observed_generation e = reinitialize observed_generation >> operation
  retried false operation observed_generation e = throw (transport_error (message_of e))

  abbrev pub recover : {A : Type 0} → Step A → ℕ → McpException → Step A
  recover operation observed_generation e =
      if is_cancelled e
      then throw e
      else retried (is_session_not_found e) operation observed_generation e

  -- _execute_with_session_recovery
  unfoldable pub execute_with_session_recovery : {A : Type 0} → Step A → Step A
  execute_with_session_recovery operation = do
    observed_generation ← gets (λ s. s.generation)
    attempt operation (recover operation observed_generation)
