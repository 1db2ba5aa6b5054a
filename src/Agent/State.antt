-- ===== src/Agent/State.antt =====
-- Messages, the state of a run and the points at which it is checkpointed:
-- agent-harness/src/agent_harness/domain/messages.py, model.py and run.py, and
-- agent-harness/src/agent_harness/checkpoints/models.py. Timestamps, identifiers that are only
-- reported, and provider metadata are left out.
use general_agent_design.Common.{ℕ, ◌+◌, String, Option, none, some, List}
use general_agent_design.Domain.Errors.{RunError}
use general_agent_design.Common.Dict.{Dict}
use general_agent_design.Domain.Json.{Value, Arguments}
use general_agent_design.Domain.Tools.{ToolStatus}

pub data MessageRole : Type 0 where
  system user assistant tool : MessageRole

pub record ToolCall : Type 0 where
  pub id : String
  pub name : String
  pub arguments : Arguments

pub record CanonicalMessage : Type 0 where
  pub role : MessageRole
  pub content : String
  pub tool_calls : List ToolCall
  pub tool_call_id : Option String
  pub tool_name : Option String

pub record ToolResult : Type 0 where
  pub tool_call_id : String
  pub tool_name : String
  pub status : ToolStatus
  pub content : String
  pub error_code : Option String
  pub error_message : Option String
  pub metadata : Dict Value

pub record Usage : Type 0 where
  pub input_tokens : Option ℕ
  pub output_tokens : Option ℕ
  pub total_tokens : Option ℕ
  pub cached_input_tokens : Option ℕ
  pub cache_miss_input_tokens : Option ℕ
  pub reasoning_tokens : Option ℕ

abbrev pub no_usage : Usage
no_usage = record {
  input_tokens = none;
  output_tokens = none;
  total_tokens = none;
  cached_input_tokens = none;
  cache_miss_input_tokens = none;
  reasoning_tokens = none;
}

pub record ModelResponse : Type 0 where
  pub assistant_message : CanonicalMessage
  pub tool_calls : List ToolCall
  pub usage : Usage

pub data RunStatus : Type 0 where
  created running completed failed cancelled : RunStatus

pub record RunState : Type 0 where
  pub status : RunStatus
  pub messages : List CanonicalMessage
  pub iteration : ℕ
  pub model_call_count : ℕ
  pub tool_call_count : ℕ
  pub usage_total : Usage
  pub final_output : Option String
  pub error : Option RunError

pub data ResumePoint : Type 0 where
  before_model model_in_flight after_model waiting_approval before_tool : ResumePoint
  tool_in_flight after_tool waiting_subagent before_finalize paused : ResumePoint
  recovery_required terminal : ResumePoint

pub data DurableTurnStatus : Type 0 where
  turn_created turn_running turn_waiting_approval turn_waiting_subagent : DurableTurnStatus
  turn_paused turn_recovering turn_recovery_required turn_completed : DurableTurnStatus
  turn_failed turn_cancelled turn_interrupted : DurableTurnStatus

-- One field of _add_usage.
abbrev pub add_count : Option ℕ → Option ℕ → Option ℕ
add_count current none = current
add_count none (some value) = some value
add_count (some current) (some value) = some (current + value)

unfoldable pub add_usage : Usage → Usage → Usage
add_usage total usage = record {
  input_tokens = add_count total.input_tokens usage.input_tokens;
  output_tokens = add_count total.output_tokens usage.output_tokens;
  total_tokens = add_count total.total_tokens usage.total_tokens;
  cached_input_tokens = add_count total.cached_input_tokens usage.cached_input_tokens;
  cache_miss_input_tokens = add_count total.cache_miss_input_tokens usage.cache_miss_input_tokens;
  reasoning_tokens = add_count total.reasoning_tokens usage.reasoning_tokens;
}
