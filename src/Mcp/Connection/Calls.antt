-- ===== src/Mcp/Connection/Calls.antt =====
-- How often a tool is called (MCPServerConnection.call_tool of
-- agent-harness/src/agent_harness/mcp/connection.py).
use general_agent_design.Common.{
  ℕ, ◌+◌, ◌≤◌, String, ◌≡◌, refl, ◌∙◌, Bool, true, false, Option, none, some, arith, if◌then◌else◌,
}
use general_agent_design.Domain.Json.{Value, dict, Members}
use general_agent_design.Mcp.Models.{McpToolRecord}
use general_agent_design.Mcp.Results.{
  CallToolResult, McpNormalizedToolResult, normalize_tool_result,
}
use general_agent_design.Mcp.Connection.{
  Connection, McpException, outcome_unknown, Reply, returned, threw, Step, throw, lift, gets,
  modify, handled, attempt, and_then, ◌>>=◌, emit, require_session, Sdk, is_cancelled, reinitialize,
  is_session_not_found, fault, validate, validate_input, validate_content, validate_output,
  refuse_error, kept_schema, find_tool, send_call, lost_session, call_failed, accept_result,
  refresh_if, call_tool,
}
use general_agent_design.Mcp.Connection.Frames.{Keeps, >>=-Keeps, require_session-Keeps}
use general_agent_design.Mcp.Connection.Quiet.{calls, refresh_catalogs_quiet, reinitialize-Keeps}

-- One more call than before if it returns, and at most one if it raises.
abbrev pub IsSent : {A : Type 0} → ℕ → Reply A × Connection → Type 0
IsSent n (returned a, t) = t.called ≡ n + 1
IsSent n (threw e, t) = t.called ≤ n + 1

abbrev Sends : {A : Type 0} → Step A → Type 0
Sends m = (s : Connection) → IsSent s.called (m s)

abbrev did_throw : {A : Type 0} → Reply A → Bool
did_throw (returned a) = false
did_throw (threw e) = true

abbrev Raises : {A : Type 0} → Step A → Type 0
Raises m = (s : Connection) → did_throw (m s).0 ≡ true

quiet_last :
    {B : Type 0} (n : ℕ) (x : Reply B × Connection) (c : ℕ)
    → x.1.called ≡ c
    → c ≡ n + 1
    → IsSent n x
quiet_last n (returned b, t) c h k = h ∙ k
quiet_last n (threw e, t) c h k = omega (arith, h, k)

module _ {A B : Type 0} where
  quiet_first :
      (x : Reply A × Connection) (g : A → Step B) (n : ℕ)
      → x.1.called ≡ n
      → ((a : A) → Sends (g a))
      → IsSent n (and_then x g)
  quiet_first (returned a, s) g n h k = coe 0 1 (i. IsSent (h i) (g a s)) (k a s)
  quiet_first (threw e, s) g n h k = omega (arith, h)

  >>=-Sends :
      (m : Step A) (g : A → Step B) → Keeps calls m → ((a : A) → Sends (g a)) → Sends (m >>= g)
  unfolding ◌>>=◌
  >>=-Sends m g h k s = quiet_first (m s) g s.called (h s) k

  IsSent-first :
      (n : ℕ) (x : Reply A × Connection) (g : A → Step B)
      → IsSent n x
      → ((a : A) → Keeps calls (g a))
      → IsSent n (and_then x g)
  IsSent-first n (returned a, s) g h k = quiet_last n (g a s) s.called (k a s) h
  IsSent-first n (threw e, s) g h k = h

  Sends->>= :
      (m : Step A) (g : A → Step B) → Sends m → ((a : A) → Keeps calls (g a)) → Sends (m >>= g)
  unfolding ◌>>=◌
  Sends->>= m g h k s = IsSent-first s.called (m s) g (h s) k

  raise_first :
      (x : Reply A × Connection) (g : A → Step B)
      → ((a : A) → Raises (g a))
      → did_throw (and_then x g).0 ≡ true
  raise_first (returned a, s) g k = k a s
  raise_first (threw e, s) g k = refl

  >>=-Raises : (m : Step A) (g : A → Step B) → ((a : A) → Raises (g a)) → Raises (m >>= g)
  unfolding ◌>>=◌
  >>=-Raises m g k s = raise_first (m s) g k

module _ {A : Type 0} where
  raised-IsSent :
      (n c : ℕ) (x : Reply A × Connection)
      → did_throw x.0 ≡ true
      → x.1.called ≡ c
      → c ≤ n + 1
      → IsSent n x
  raised-IsSent n c (returned a, t) h k l = absurd cc
  raised-IsSent n c (threw e, t) h k l = omega (arith, k, l)

  handled-IsSent :
      (n : ℕ) (x : Reply A × Connection) (g : McpException → Step A)
      → IsSent n x
      → ((e : McpException) → Keeps calls (g e))
      → ((e : McpException) → Raises (g e))
      → IsSent n (handled x g)
  handled-IsSent n (returned a, s) g h k r = h
  handled-IsSent n (threw e, s) g h k r = raised-IsSent n s.called (g e s) (r e s) (k e s) h

  -- A handler that calls no tool and always raises changes nothing about it.
  attempt-Sends :
      (m : Step A) (g : McpException → Step A)
      → Sends m
      → ((e : McpException) → Keeps calls (g e))
      → ((e : McpException) → Raises (g e))
      → Sends (attempt m g)
  unfolding attempt
  attempt-Sends m g h k r s = handled-IsSent s.called (m s) g (h s) k r

module _ (k : Sdk) where
  replied : (n : ℕ) (r : Reply CallToolResult) (t : Connection) → t.called ≡ n + 1 → IsSent n (r, t)
  replied n (returned c) t h = h
  replied n (threw e) t h = omega (arith, h)

  counted_call :
      (r : Reply CallToolResult)
      → Sends (modify (λ t. record t { called = t.called + 1 }) >>= λ _. lift r)
  unfolding ◌>>=◌
  counted_call r s = replied s.called r (record s { called = s.called + 1 }) refl

  send_call-Sends : (name : String) (arguments : Members) → Sends (send_call k name arguments)
  unfolding send_call
  send_call-Sends name arguments = >>=-Sends require_session _ (require_session-Keeps calls) λ _.
      >>=-Sends (gets (λ s. s.called)) _ (λ s. refl) λ n. counted_call (k.call n name arguments)

  lost_session-Keeps : (b : Bool) (n : ℕ) (e : McpException) → Keeps calls (lost_session k b n e)
  lost_session-Keeps false n e = λ s. refl
  lost_session-Keeps true n e = >>=-Keeps calls (reinitialize k n) _ (reinitialize-Keeps k n) λ _.
      >>=-Keeps calls (emit "mcp.tool_outcome_unknown") (λ _. throw outcome_unknown) (λ s. refl)
        λ _ s. refl

  lost_session-Raises : (b : Bool) (n : ℕ) (e : McpException) → Raises (lost_session k b n e)
  lost_session-Raises false n e = λ s. refl
  lost_session-Raises true n e =
      >>=-Raises (reinitialize k n) _
        λ _. >>=-Raises (emit "mcp.tool_outcome_unknown") (λ _. throw outcome_unknown) λ _ s. refl

  call_failed-Keeps : (n : ℕ) (e : McpException) → Keeps calls (call_failed k n e)
  unfolding call_failed
  call_failed-Keeps n e = by_test (is_cancelled e)
    where
      by_test :
          (b : Bool)
          → Keeps calls (if b then throw e else lost_session k (is_session_not_found k e) n e)
      by_test true s = refl
      by_test false s = lost_session-Keeps (is_session_not_found k e) n e s

  call_failed-Raises : (n : ℕ) (e : McpException) → Raises (call_failed k n e)
  unfolding call_failed
  call_failed-Raises n e = by_test (is_cancelled e)
    where
      by_test :
          (b : Bool) → Raises (if b then throw e else lost_session k (is_session_not_found k e) n e)
      by_test true s = refl
      by_test false s = lost_session-Raises (is_session_not_found k e) n e s

  validate-Keeps : (v : Value) (schema : Members) → Keeps calls (validate k v schema)
  validate-Keeps v schema =
      >>=-Keeps calls (lift (fault k (k.check_schema schema))) _ (λ s. refl) λ _ s. refl

  validate_input-Keeps :
      (arguments : Members) (r : Option McpToolRecord) → Keeps calls (validate_input k arguments r)
  validate_input-Keeps arguments none = λ s. refl
  validate_input-Keeps arguments (some r) = validate-Keeps (dict arguments) r.input_schema

  refresh_if-Keeps : (b : Bool) → Keeps calls (refresh_if k b)
  refresh_if-Keeps true = refresh_catalogs_quiet k
  refresh_if-Keeps false = λ s. refl

  validate_content-Keeps :
      (content : Members) (o : Option Members) → Keeps calls (validate_content k content o)
  validate_content-Keeps content none = λ s. refl
  validate_content-Keeps content (some schema) = validate-Keeps (dict content) schema

  validate_output-Keeps :
      (o : Option Members) (r : Option McpToolRecord) → Keeps calls (validate_output k o r)
  validate_output-Keeps none none = λ s. refl
  validate_output-Keeps none (some r) = λ s. refl
  validate_output-Keeps (some content) none = λ s. refl
  validate_output-Keeps (some content) (some r) =
      validate_content-Keeps content (kept_schema k r.output_schema)

  refuse_error-Keeps : (b : Bool) (r : McpNormalizedToolResult) → Keeps calls (refuse_error k b r)
  refuse_error-Keeps false r = λ s. refl
  refuse_error-Keeps true r =
      >>=-Keeps calls (emit "mcp.tool_execution_error") _ (λ s. refl) λ _ s. refl

  accept_result-Keeps :
      (found : Option McpToolRecord) (result : CallToolResult)
      → Keeps calls (accept_result k found result)
  unfolding accept_result
  accept_result-Keeps found result =
      >>=-Keeps calls (emit "mcp.tool_call_completed") _ (λ s. refl)
        λ _.
          >>=-Keeps calls (refuse_error k result.is_error (normalize_tool_result result)) _
            (refuse_error-Keeps result.is_error (normalize_tool_result result))
            λ _.
              >>=-Keeps calls (validate_output k result.structured_content found) _
                (validate_output-Keeps result.structured_content found) λ _ s. refl

  -- A call of a tool that returns has been sent to the server exactly once, and one that raises, for
  -- whatever reason, at most once.
  pub call_tool-IsSent :
      (name : String) (arguments : Members) (s : Connection)
      → IsSent s.called (call_tool k name arguments s)
  unfolding call_tool
  call_tool-IsSent name arguments =
      >>=-Sends (gets (λ s. s.catalog_stale)) _ (λ s. refl)
        λ stale. >>=-Sends (refresh_if k stale) _ (refresh_if-Keeps stale) λ _.
          >>=-Sends (gets (λ s. find_tool k name s.tools)) _ (λ s. refl)
            λ found.
              >>=-Sends (validate_input k arguments found) _ (validate_input-Keeps arguments found)
                λ _.
                  >>=-Sends (emit "mcp.tool_call_started") _ (λ s. refl)
                    λ _.
                      >>=-Sends (gets (λ s. s.generation)) _ (λ s. refl)
                        λ n.
                          Sends->>= (attempt (send_call k name arguments) (call_failed k n))
                            (accept_result k found)
                            (attempt-Sends (send_call k name arguments) (call_failed k n)
                              (send_call-Sends name arguments) (call_failed-Keeps n)
                              (call_failed-Raises n))
                            (accept_result-Keeps found)
