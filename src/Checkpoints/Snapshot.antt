-- ===== src/Checkpoints/Snapshot.antt =====
-- A whole RunState as agent-harness/src/agent_harness/checkpoints/serializer.py reads and writes it:
-- agent-harness/src/agent_harness/domain/run.py, messages.py, model.py and errors.py. `T` is the type of
-- the datetimes. to_jsonable of agent-harness/src/agent_harness/utils/serialization.py is written out for
-- each record.
use general_agent_design.Common.{ℕ, String, Bool, Option, none, some, List, [], ◌∷◌}
use general_agent_design.Common.Dict.{Dict}
use general_agent_design.Agent.State.{RunStatus, created, running, completed, failed, cancelled}
use general_agent_design.Domain.Json.{
  pos, Value, null, bool, int, text, array, dict, Elements, no_element, element,
}
use general_agent_design.Tools.Runtime.{RawArguments, parsed, unparsed, as_members}

pub record CallState : Type 0 where
  pub id : String
  pub name : String
  pub arguments : RawArguments
  pub raw_arguments : Option String
  pub provider_metadata : Dict Value
  pub sequence_index : ℕ

-- When a message was made: a datetime, the text of one, or nothing.
pub data Stamp (T : Type 0) : Type 0 where
  moment : T → Stamp T
  written : String → Stamp T
  unstamped : Stamp T

pub record MessageState (T : Type 0) : Type 0 where
  pub role : String
  pub content : String
  pub reasoning_content : Option String
  pub message_id : String
  pub tool_calls : List CallState
  pub tool_call_id : Option String
  pub tool_name : Option String
  pub created_at : Stamp T
  pub metadata : Dict Value

pub record UsageState : Type 0 where
  pub input_tokens : Option ℕ
  pub output_tokens : Option ℕ
  pub total_tokens : Option ℕ
  pub cached_input_tokens : Option ℕ
  pub cache_miss_input_tokens : Option ℕ
  pub reasoning_tokens : Option ℕ
  pub provider_details : Dict Value

pub record ErrorState : Type 0 where
  pub code : String
  pub message : String
  pub category : String
  pub recoverable : Bool
  pub details : Dict Value
  pub cause_type : Option String

pub record Snapshot (T : Type 0) : Type 0 where
  pub task : String
  pub workspace_root : String
  pub agent_name : String
  pub run_id : String
  pub turn_id : Option String
  pub turn_count : ℕ
  pub session_summary : String
  pub status : RunStatus
  pub messages : List (MessageState T)
  pub iteration : ℕ
  pub model_call_count : ℕ
  pub tool_call_count : ℕ
  pub usage_total : UsageState
  pub started_at : T
  pub updated_at : T
  pub completed_at : Option T
  pub final_output : Option String
  pub error : Option ErrorState
  pub cancellation_requested : Bool
  pub agent_summary : Option (Dict Value)

abbrev pub or_null : Option String → Value
or_null none = null
or_null (some s) = text s

abbrev pub count_or_null : Option ℕ → Value
count_or_null none = null
count_or_null (some n) = int (pos n)

abbrev pub object : Dict Value → Value
object d = dict (as_members d)

abbrev pub dict_or_null : Option (Dict Value) → Value
dict_or_null none = null
dict_or_null (some d) = object d

-- RunStatus.value
abbrev pub status_text : RunStatus → String
status_text created = "CREATED"
status_text running = "RUNNING"
status_text completed = "COMPLETED"
status_text failed = "FAILED"
status_text cancelled = "CANCELLED"

abbrev pub arguments_value : RawArguments → Value
arguments_value (parsed d) = object d
arguments_value (unparsed s) = text s

unfoldable pub call_value : CallState → Value
call_value c = object (
    ("id", text c.id)
    ∷ ("name", text c.name)
    ∷ ("arguments", arguments_value c.arguments)
    ∷ ("raw_arguments", or_null c.raw_arguments)
    ∷ ("provider_metadata", object c.provider_metadata)
    ∷ ("sequence_index", int (pos c.sequence_index))
    ∷ [])

unfoldable pub call_values : List CallState → Elements
call_values [] = no_element
call_values (c ∷ cs) = element (call_value c) (call_values cs)

unfoldable pub usage_value : UsageState → Value
usage_value u = object (
    ("input_tokens", count_or_null u.input_tokens)
    ∷ ("output_tokens", count_or_null u.output_tokens)
    ∷ ("total_tokens", count_or_null u.total_tokens)
    ∷ ("cached_input_tokens", count_or_null u.cached_input_tokens)
    ∷ ("cache_miss_input_tokens", count_or_null u.cache_miss_input_tokens)
    ∷ ("reasoning_tokens", count_or_null u.reasoning_tokens)
    ∷ ("provider_details", object u.provider_details)
    ∷ [])

unfoldable pub error_value : Option ErrorState → Value
error_value none = null
error_value (some e) = object (
    ("code", text e.code)
    ∷ ("message", text e.message)
    ∷ ("category", text e.category)
    ∷ ("recoverable", bool e.recoverable)
    ∷ ("details", object e.details)
    ∷ ("cause_type", or_null e.cause_type)
    ∷ [])

module _ {T : Type 0} (isoformat : T → String) where
  abbrev pub stamp_value : Stamp T → Value
  stamp_value (moment t) = text (isoformat t)
  stamp_value (written s) = text s
  stamp_value unstamped = null

  abbrev pub moment_or_null : Option T → Value
  moment_or_null none = null
  moment_or_null (some t) = text (isoformat t)

  unfoldable pub message_value : MessageState T → Value
  message_value m = object (
      ("role", text m.role)
      ∷ ("content", text m.content)
      ∷ ("reasoning_content", or_null m.reasoning_content)
      ∷ ("message_id", text m.message_id)
      ∷ ("tool_calls", array (call_values m.tool_calls))
      ∷ ("tool_call_id", or_null m.tool_call_id)
      ∷ ("tool_name", or_null m.tool_name)
      ∷ ("created_at", stamp_value m.created_at)
      ∷ ("metadata", object m.metadata)
      ∷ [])

  unfoldable pub message_values : List (MessageState T) → Elements
  message_values [] = no_element
  message_values (m ∷ ms) = element (message_value m) (message_values ms)

  -- serialize_run_state
  unfoldable pub serialize_run_state : Snapshot T → Dict Value
  serialize_run_state s =
      ("task", text s.task)
      ∷ ("workspace_root", text s.workspace_root)
      ∷ ("agent_name", text s.agent_name)
      ∷ ("run_id", text s.run_id)
      ∷ ("turn_id", or_null s.turn_id)
      ∷ ("turn_count", int (pos s.turn_count))
      ∷ ("session_summary", text s.session_summary)
      ∷ ("status", text (status_text s.status))
      ∷ ("messages", array (message_values s.messages))
      ∷ ("iteration", int (pos s.iteration))
      ∷ ("model_call_count", int (pos s.model_call_count))
      ∷ ("tool_call_count", int (pos s.tool_call_count))
      ∷ ("usage_total", usage_value s.usage_total)
      ∷ ("started_at", text (isoformat s.started_at))
      ∷ ("updated_at", text (isoformat s.updated_at))
      ∷ ("completed_at", moment_or_null s.completed_at)
      ∷ ("final_output", or_null s.final_output)
      ∷ ("error", error_value s.error)
      ∷ ("cancellation_requested", bool s.cancellation_requested)
      ∷ ("agent_summary", dict_or_null s.agent_summary)
      ∷ []
