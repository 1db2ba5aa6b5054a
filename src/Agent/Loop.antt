-- ===== src/Agent/Loop.antt =====
-- agent-harness/src/agent_harness/runtime/agent_loop.py: AgentLoop.run and its helpers. A method is an
-- action on the loop's state. What it calls is `Env`: the clock, the request to cancel, the context
-- builder (which may refuse), the provider, the tool runtime, the mailbox and the final guard, each
-- as a function of the run's state. A checkpoint is the pair that is saved; that saving succeeds is
-- assumed. Trace events, timestamps and the success callback are left out.
mod Parts
pub mod Moves
pub mod Termination
pub mod Endings
unfoldable pub use Parts.*
use Prim.Native.String
use mathlib.Core.List.{reverse}
use mathlib.Core.Option
use general_agent_design.Common.{
  ℕ, zero, suc, ◌+◌, String, Bool, true, false, not, Option, none, some, List, [], ◌∷◌, ◌++◌, map,
  select, any, contains, ◌==◌, if◌then◌else◌,
}
use general_agent_design.Domain.Errors.{
  Exception, HarnessError, RunError, to_run_error, raised, value_error, timed_out, other, Result,
  ok, err, fail, harness, cancellation, provider_protocol,
}
use general_agent_design.Domain.Tools.{ToolStatus, success}
use general_agent_design.Runtime.Budgets.{
  RunLimits, check_wall_time, check_iteration, check_model_calls, check_tool_calls,
}
use general_agent_design.Agent.State.{
  MessageRole, system, user, assistant, tool, ToolCall, CanonicalMessage, ToolResult, no_usage,
  ModelResponse, RunStatus, running, completed, failed, cancelled, RunState, ResumePoint,
  before_model, model_in_flight, after_model, waiting_approval, before_tool, tool_in_flight,
  after_tool, before_finalize, terminal, DurableTurnStatus, turn_running, turn_completed,
  turn_failed, turn_cancelled, add_usage,
}
use general_agent_design.Agent.Action.{Action, pure, raise, lift, gets, modify, ◌>>=◌, ◌>>◌}
use general_agent_design.Agent.Completion.{
  Policy, CompletionDecision, terminal_tool_names, on_text_response,
}

module _ (e : Env) where
  -- _drain_mailbox
  unfoldable pub drain_mailbox : Action Loop (Unit {0})
  drain_mailbox =
      modify (
        on_run
          (λ r. append (map (λ m. say user (String.◌++◌ "父 Agent 追加指令：\n" m)) (e.mailbox r)) r))

  unfoldable pub stop_if_requested : Action Loop (Unit {0})
  stop_if_requested = do
    requested ← gets (λ s. e.cancellation_requested s.run)
    if requested
        then raise
            (raised (record { class = cancellation; message = "Run cancellation requested" }))
        else pure tt

  -- The top of the loop: the checks, and the next iteration unless a response is to be reused.
  unfoldable pub begin : Action Loop (Unit {0})
  begin = do
    stop_if_requested
    elapsed ← gets (λ s. e.elapsed s.run)
    lift (check_wall_time elapsed e.limits)
    continuing ← gets (λ s. is_continuing s.resume_point)
    if continuing then pure tt else do
      iteration ← gets (λ s. s.run.iteration)
      lift (check_iteration iteration e.limits)
      modify (on_run (λ r. record r { iteration = r.iteration + 1 }))

  -- A new model response: one model call, between two checkpoints.
  unfoldable pub call_model : Action Loop ModelResponse
  unfolding checkpoint
  call_model = do
    checkpoint before_model turn_running
    r ← gets (λ s. s.run)
    lift (e.build r)
    calls ← gets (λ s. s.run.model_call_count)
    lift (check_model_calls calls e.limits)
    modify (on_run (λ r. record r { model_call_count = r.model_call_count + 1 }))
    checkpoint model_in_flight turn_running
    r' ← gets (λ s. s.run)
    response ← lift (e.complete r')
    modify (
        on_run (λ r. record (append (response.assistant_message ∷ []) r) {
          usage_total = add_usage r.usage_total response.usage;
        }))
    checkpoint after_model turn_running
    pure response

  unfoldable pub obtain_response : Action Loop ModelResponse
  obtain_response = do
    continuing ← gets (λ s. is_continuing s.resume_point)
    if continuing then reuse_response else call_model

  abbrev pub ends_run : ToolCall → ToolResult → Bool
  ends_run call result =
      if is_success result.status
      then contains call.name (e.terminal_tools ++ terminal_tool_names e.policy)
      else false

  -- One tool call up to the answer's checkpoint.
  unfoldable pub call_tool : ToolCall → Action Loop ToolResult
  unfolding stop_if_requested checkpoint drain_mailbox answer
  call_tool call = do
    stop_if_requested
    calls ← gets (λ s. s.run.tool_call_count)
    lift (check_tool_calls calls e.limits)
    checkpoint before_tool turn_running
    checkpoint tool_in_flight turn_running
    r ← gets (λ s. s.run)
    result ← lift (e.execute call r)
    modify (on_run (λ r. record r { tool_call_count = r.tool_call_count + 1 }))
    modify (on_run (append (answer result ∷ [])))
    checkpoint after_tool turn_running
    drain_mailbox
    pure result

  -- The calls of one response in order; true where one of them ended the run.
  unfoldable pub call_tools : List ToolCall → Action Loop Bool
  call_tools [] = pure false
  call_tools (call ∷ calls) = do
    result ← call_tool call
    if ends_run call result then (do complete_run result.content; pure true) else call_tools calls

  -- The policy's decision on a text, and the repairs that it has made by then.
  unfoldable pub decide_text : Action Loop CompletionDecision
  decide_text = do
    s ← gets (λ s. s)
    let decided = on_text_response e.policy (e.final_guard s.run) s.repair_count
    modify (λ s. record s { repair_count = decided.1 })
    pure decided.0

  -- A response without tool calls: the policy completes the run or asks for more work.
  unfoldable pub on_text : ModelResponse → Action Loop Bool
  on_text response =
      let final_text = e.strip response.assistant_message.content in
      if final_text == ""
      then raise (
          raised (record {
            class = provider_protocol;
            message = "Model returned neither tool calls nor final text";
          }))
      else (do
        decision ← decide_text
        if decision.should_complete then (do complete_run final_text; pure true) else (do
          modify (on_run (append (say user (or_default decision.repair_message) ∷ [])))
          pure false))

  -- `if response.tool_calls:`, with the calls that no message answers yet
  unfoldable pub respond_with : List ToolCall → ModelResponse → Action Loop Bool
  respond_with [] response = on_text response
  respond_with (call ∷ calls) response = do
    ms ← gets (λ s. s.run.messages)
    call_tools (select (λ c. not (is_answered ms c)) (call ∷ calls))

  unfoldable pub respond : ModelResponse → Action Loop Bool
  respond response = respond_with response.tool_calls response

  -- The body of `while state.status == RUNNING`; true where it returned.
  unfoldable pub iteration : Action Loop Bool
  iteration = do begin; drain_mailbox; response ← obtain_response; respond response

  -- The loop on fuel; `none` means that the fuel ran out.
  unfoldable pub iterate : ℕ → Loop → Option (Result (Unit {0}) × Loop)
  iterate zero s = none
  iterate (suc fuel) s = continue_with (iteration s) (iterate fuel)

-- What the `except` clauses of run make of the loop's end.
unfoldable pub as_error : Exception → HarnessError
as_error (raised x) = x
as_error (value_error m) = record { class = harness; message = m }
as_error (other m) = record { class = harness; message = m }
as_error _ = record { class = harness; message = "" }

abbrev pub is_cancellation : HarnessError → Bool
is_cancellation x = elim x.class [ cancellation ↦ true | _ ↦ false ]

abbrev pub fail_run : RunStatus → HarnessError → Loop → Loop
fail_run st x = on_run (λ r. record r { status = st; error = some (to_run_error x) })

-- run returns the state, or raises CancelledError again.
pub data Ending : Type 0 where
  returned reraised : Ending

unfoldable pub handle : Result (Unit {0}) × Loop → Ending × Loop
unfolding as_error checkpoint
handle (ok _, s) = (returned, s)
handle (err Exception.cancelled, s) = (
  reraised,
  fail_run cancelled (record { class = cancellation; message = "Run task was cancelled" }) s,
)
handle (err x, s) =
    if is_cancellation (as_error x)
    then (returned, (checkpoint terminal turn_cancelled (fail_run cancelled (as_error x) s)).1)
    else (returned, (checkpoint terminal turn_failed (fail_run failed (as_error x) s)).1)

-- _resume_finalization
abbrev pub recovered : Option RunError → RunStatus × DurableTurnStatus
recovered none = (completed, turn_completed)
recovered (some x) =
    if x.category == "cancellation" then (cancelled, turn_cancelled) else (failed, turn_failed)

unfoldable pub resume_finalization : Loop → Loop
unfolding checkpoint
resume_finalization s =
    let (st, durable) = recovered s.run.error in
    (checkpoint terminal durable (record (on_run (set_status st) s) { resume_point = none })).1

abbrev pub is_finalizing : Option ResumePoint → Bool
is_finalizing (some before_finalize) = true
is_finalizing _ = false

-- AgentLoop.run on fuel
unfoldable pub run : Env → ℕ → Loop → Option (Ending × Loop)
unfolding handle resume_finalization
run e fuel s =
    let started = on_run (set_status running) s in
    if is_finalizing started.resume_point
    then some (returned, resume_finalization started)
    else Option.map handle (iterate e fuel started)
