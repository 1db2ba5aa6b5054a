-- ===== src/Agent/Loop/Parts.antt =====
-- agent-harness/src/agent_harness/runtime/agent_loop.py: the fields of AgentLoop, and the parts of its
-- methods that call nothing outside.
use mathlib.Core.List.{reverse}
use general_agent_design.Common.{
  ℕ, String, Bool, true, false, Option, none, some, List, [], ◌∷◌, ◌++◌, any, ◌==◌, if◌then◌else◌,
}
use general_agent_design.Domain.Errors.{Result, ok, err, fail, provider_protocol}
use general_agent_design.Domain.Tools.{ToolStatus, success}
use general_agent_design.Runtime.Budgets.{RunLimits}
use general_agent_design.Agent.State.{
  MessageRole, assistant, tool, ToolCall, CanonicalMessage, ToolResult, no_usage, ModelResponse,
  RunStatus, completed, RunState, ResumePoint, after_model, waiting_approval, before_tool,
  after_tool, before_finalize, terminal, DurableTurnStatus, turn_running, turn_completed,
}
use general_agent_design.Agent.Action.{Action, pure, lift, gets, modify, ◌>>=◌, ◌>>◌}
use general_agent_design.Agent.Completion.{Policy}

pub record Env : Type 0 where
  pub limits : RunLimits
  pub policy : Policy
  pub terminal_tools : List String
  pub elapsed : RunState → ℕ
  pub cancellation_requested : RunState → Bool
  pub build : RunState → Result (Unit {0})
  pub complete : RunState → Result ModelResponse
  pub execute : ToolCall → RunState → Result ToolResult
  pub mailbox : RunState → List String
  pub final_guard : RunState → Option String
  pub strip : String → String

-- An AgentLoop at work: the run, the point to resume from, the repairs of the completion policy, and
-- the checkpoints saved so far, newest first.
pub record Loop : Type 0 where
  pub run : RunState
  pub resume_point : Option ResumePoint
  pub repair_count : ℕ
  pub checkpoints : List (ResumePoint × DurableTurnStatus)

-- The resume points at which an iteration goes on from a committed model response.
abbrev pub is_continuing : Option ResumePoint → Bool
is_continuing (some after_model) = true
is_continuing (some waiting_approval) = true
is_continuing (some before_tool) = true
is_continuing (some after_tool) = true
is_continuing _ = false

abbrev pub on_run : (RunState → RunState) → Loop → Loop
on_run f s = record s { run = f s.run }

abbrev pub set_status : RunStatus → RunState → RunState
set_status st r = record r { status = st }

abbrev pub say : MessageRole → String → CanonicalMessage
say role content = record {
  role = role;
  content = content;
  tool_calls = [];
  tool_call_id = none;
  tool_name = none;
}

abbrev pub append : List CanonicalMessage → RunState → RunState
append ms r = record r { messages = r.messages ++ ms }

-- _checkpoint
unfoldable pub checkpoint : ResumePoint → DurableTurnStatus → Action Loop (Unit {0})
checkpoint point status = modify (λ s. record s { checkpoints = (point, status) ∷ s.checkpoints })

abbrev pub is_role : MessageRole → MessageRole → Bool
is_role assistant assistant = true
is_role tool tool = true
is_role _ _ = false

-- next(item for item in reversed(messages) if item.role == "assistant"), over the reversed list
abbrev pub first_assistant : List CanonicalMessage → Option CanonicalMessage
first_assistant [] = none
first_assistant (m ∷ ms) = if is_role assistant m.role then some m else first_assistant ms

-- _committed_model_response
unfoldable pub committed_model_response : RunState → Result ModelResponse
committed_model_response r = elim (first_assistant (reverse r.messages)) [
  | none ↦ fail provider_protocol "AFTER_MODEL checkpoint has no durable assistant message"
  | some m ↦ ok (record { assistant_message = m; tool_calls = m.tool_calls; usage = no_usage })
]

-- item.id in completed_call_ids
abbrev pub is_call_id : String → Option String → Bool
is_call_id i none = false
is_call_id i (some j) = i == j

abbrev pub is_answered : List CanonicalMessage → ToolCall → Bool
is_answered ms call =
    any (λ m. if is_role tool m.role then is_call_id call.id m.tool_call_id else false) ms

abbrev pub is_success : ToolStatus → Bool
is_success success = true
is_success _ = false

-- repair_message or "请继续。"
abbrev pub or_default : Option String → String
or_default none = "请继续。"
or_default (some m) = if m == "" then "请继续。" else m

unfoldable pub reuse_response : Action Loop ModelResponse
reuse_response = do
  r ← gets (λ s. s.run)
  response ← lift (committed_model_response r)
  modify (λ s. record s { resume_point = none })
  pure response

-- The run ends with this output; between its last two checkpoints nothing else happens.
unfoldable pub complete_run : String → Action Loop (Unit {0})
unfolding checkpoint
complete_run output = do
  modify (on_run (λ r. record r { final_output = some output }))
  modify (on_run (set_status completed))
  checkpoint before_finalize turn_running
  checkpoint terminal turn_completed

unfoldable pub answer : ToolResult → CanonicalMessage
answer result = record {
  role = tool;
  content = result.content;
  tool_calls = [];
  tool_call_id = some result.tool_call_id;
  tool_name = some result.tool_name;
}

-- What the while loop does after an iteration; `rest` is the loop's next round.
abbrev pub continue_with :
    Result Bool × Loop
    → (Loop → Option (Result (Unit {0}) × Loop))
    → Option (Result (Unit {0}) × Loop)
continue_with (ok true, t) rest = some (ok tt, t)
continue_with (ok false, t) rest = rest t
continue_with (err x, t) rest = some (err x, t)
