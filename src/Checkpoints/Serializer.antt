-- ===== src/Checkpoints/Serializer.antt =====
-- restore_run_state of agent-harness/src/agent_harness/checkpoints/serializer.py. Parameters: `str` of a
-- value that is no text, and the reading of a datetime's text, its "Z" replaced. A field that is only
-- copied counts as absent where the payload has a value of another type.
use general_agent_design.Common.{
  ℕ, String, Bool, false, Option, none, some, List, [], ◌∷◌, all, contains, ◌==◌, if◌then◌else◌,
}
use general_agent_design.Common.Dict.{Dict, lookup}
use general_agent_design.Domain.Errors.{Result, ok, err, value_error, other, ◌>>=◌}
use general_agent_design.Agent.State.{RunStatus, created, running, completed, failed, cancelled}
use general_agent_design.Domain.Json.{pos, Value, int, text, dict, Elements, no_element, element}
use general_agent_design.Tools.Runtime.{parsed, entries, truthy, iterate}
use general_agent_design.Checkpoints.Snapshot.{
  CallState, Stamp, written, unstamped, MessageState, UsageState, ErrorState, Snapshot,
}

pub record Reader (T : Type 0) : Type 0 where
  pub show : Value → String
  pub fromisoformat : String → Result T

-- payload.get(k), for a field that is copied
abbrev pub copied_text : Option Value → Option String
copied_text (some (text s)) = some s
copied_text _ = none

abbrev pub copied_count : Option Value → Option ℕ
copied_count (some (int (pos n))) = some n
copied_count _ = none

-- int(payload.get(k, 0))
abbrev pub counted : Option Value → Result ℕ
counted none = ok 0
counted (some (int (pos n))) = ok n
counted (some v) = err (other "not a count")

-- bool(payload.get(k, False))
abbrev pub truth : Option Value → Bool
truth none = false
truth (some v) = truthy v

-- dict(value or {})
abbrev copied_dict : Value → Result (Dict Value)
copied_dict (dict ms) = ok (entries ms)
copied_dict (text s) =
    err (value_error "dictionary update sequence element #0 has length 1; 2 is required")
copied_dict v = err (other "object is not iterable")

abbrev pub dict_or_empty : Option Value → Result (Dict Value)
dict_or_empty none = ok []
dict_or_empty (some v) = if truthy v then copied_dict v else ok []

-- dict(value) if isinstance(value, dict) else None
abbrev pub dict_or_none : Option Value → Option (Dict Value)
dict_or_none (some (dict ms)) = some (entries ms)
dict_or_none _ = none

-- RunStatus(text)
abbrev pub status_of : String → Result RunStatus
status_of s =
    if s == "CREATED"
    then ok created
    else if s == "RUNNING"
    then ok running
    else if s == "COMPLETED"
    then ok completed
    else if s == "FAILED"
    then ok failed
    else if s == "CANCELLED"
    then ok cancelled
    else err (value_error "not a valid RunStatus")

-- The fields of a row; any other value cannot be indexed.
abbrev pub fields_of : Value → Result (Dict Value)
fields_of (dict ms) = ok (entries ms)
fields_of v = err (other "indices must be integers")

-- payload[k]
abbrev pub entry : Option Value → Result Value
entry none = err (other "KeyError")
entry (some v) = ok v

-- RunError(**error): a key that is no field raises, and so does a missing one without a default.
abbrev pub error_fields : List String
error_fields = "code" ∷ "message" ∷ "category" ∷ "recoverable" ∷ "details" ∷ "cause_type" ∷ []

abbrev details_of : Option Value → Dict Value
details_of (some (dict ms)) = entries ms
details_of _ = []

abbrev pub read_error :
    Option Value → Option Value → Option Value → Dict Value → Result (Option ErrorState)
read_error (some (text code)) (some (text message)) (some (text category)) row = ok (
    some (record {
      code = code;
      message = message;
      category = category;
      recoverable = truth (lookup "recoverable" row);
      details = details_of (lookup "details" row);
      cause_type = copied_text (lookup "cause_type" row);
    }))
read_error _ _ _ _ = err (other "missing required argument")

abbrev pub restore_error : Option Value → Result (Option ErrorState)
restore_error (some (dict ms)) =
    let row = entries ms in
    if all (λ e. contains e.0 error_fields) row
    then read_error (lookup "code" row) (lookup "message" row) (lookup "category" row) row
    else err (other "unexpected keyword argument")
restore_error _ = ok none

abbrev pub stamp_of : {T : Type 0} → Option Value → Stamp T
stamp_of (some (text s)) = written s
stamp_of _ = unstamped

module _ {T : Type 0} (r : Reader T) where
  abbrev pub str : Value → String
  str (text s) = s
  str v = r.show v

  -- str(payload.get(k, default))
  abbrev pub text_at : Option Value → String → String
  text_at none default = default
  text_at (some v) default = str v

  -- str(row.get(k) or "")
  abbrev pub text_or_empty : Option Value → String
  text_or_empty none = ""
  text_or_empty (some v) = if truthy v then str v else ""

  -- _datetime_from_value(payload.get(k), default)
  abbrev pub moment_at : Option Value → T → Result T
  moment_at (some (text s)) default = if s == "" then ok default else r.fromisoformat s
  moment_at _ default = ok default

  abbrev read_moment : Value → Result (Option T)
  read_moment (text s) = r.fromisoformat s >>= λ t. ok (some t)
  read_moment v = ok none

  -- _datetime_from_value(completed_at, None) if completed_at else None
  abbrev pub optional_moment : Option Value → Result (Option T)
  optional_moment none = ok none
  optional_moment (some v) = if truthy v then read_moment v else ok none

  unfoldable pub restore_call : Value → Result CallState
  restore_call v = do
    row ← fields_of v
    id ← entry (lookup "id" row)
    name ← entry (lookup "name" row)
    arguments ← dict_or_empty (lookup "arguments" row)
    ok (record {
      id = str id;
      name = str name;
      arguments = parsed arguments;
      raw_arguments = none;
      provider_metadata = [];
      sequence_index = 0;
    })

  unfoldable pub restore_calls : Elements → Result (List CallState)
  unfolding restore_call
  restore_calls no_element = ok []
  restore_calls (element v vs) = do c ← restore_call v; cs ← restore_calls vs; ok (c ∷ cs)

  -- _message_from_dict
  unfoldable pub restore_message : Value → Result (MessageState T)
  unfolding restore_calls
  restore_message v = do
    row ← fields_of v
    found ← iterate (lookup "tool_calls" row)
    calls ← restore_calls found
    role ← entry (lookup "role" row)
    metadata ← dict_or_empty (lookup "metadata" row)
    ok (record {
      role = str role;
      content = text_or_empty (lookup "content" row);
      reasoning_content = copied_text (lookup "reasoning_content" row);
      message_id = text_or_empty (lookup "message_id" row);
      tool_calls = calls;
      tool_call_id = copied_text (lookup "tool_call_id" row);
      tool_name = copied_text (lookup "tool_name" row);
      created_at = stamp_of (lookup "created_at" row);
      metadata = metadata;
    })

  unfoldable pub restore_messages : Elements → Result (List (MessageState T))
  unfolding restore_message
  restore_messages no_element = ok []
  restore_messages (element v vs) = do m ← restore_message v; ms ← restore_messages vs; ok (m ∷ ms)

  -- payload.get("usage_total") or {}
  abbrev pub usage_fields : Option Value → Result (Dict Value)
  usage_fields none = ok []
  usage_fields (some v) = if truthy v then fields_of v else ok []

  unfoldable pub restore_usage : Option Value → Result UsageState
  restore_usage v = do
    u ← usage_fields v
    details ← dict_or_empty (lookup "provider_details" u)
    ok (record {
      input_tokens = copied_count (lookup "input_tokens" u);
      output_tokens = copied_count (lookup "output_tokens" u);
      total_tokens = copied_count (lookup "total_tokens" u);
      cached_input_tokens = copied_count (lookup "cached_input_tokens" u);
      cache_miss_input_tokens = copied_count (lookup "cache_miss_input_tokens" u);
      reasoning_tokens = copied_count (lookup "reasoning_tokens" u);
      provider_details = details;
    })

  -- restore_run_state, where `now` is the time of the call.
  unfoldable pub restore_run_state : Dict Value → String → T → Result (Snapshot T)
  unfolding restore_usage restore_messages
  restore_run_state payload workspace_root now = do
    run_id ← entry (lookup "run_id" payload)
    turn_count ← counted (lookup "turn_count" payload)
    status ← status_of (text_at (lookup "status" payload) "CREATED")
    iteration ← counted (lookup "iteration" payload)
    model_call_count ← counted (lookup "model_call_count" payload)
    tool_call_count ← counted (lookup "tool_call_count" payload)
    usage_total ← restore_usage (lookup "usage_total" payload)
    started_at ← moment_at (lookup "started_at" payload) now
    updated_at ← moment_at (lookup "updated_at" payload) now
    completed_at ← optional_moment (lookup "completed_at" payload)
    error ← restore_error (lookup "error" payload)
    found ← iterate (lookup "messages" payload)
    messages ← restore_messages found
    ok (record {
      task = text_at (lookup "task" payload) "";
      workspace_root = workspace_root;
      agent_name = text_at (lookup "agent_name" payload) "coding_assistant";
      run_id = str run_id;
      turn_id = copied_text (lookup "turn_id" payload);
      turn_count = turn_count;
      session_summary = text_at (lookup "session_summary" payload) "";
      status = status;
      messages = messages;
      iteration = iteration;
      model_call_count = model_call_count;
      tool_call_count = tool_call_count;
      usage_total = usage_total;
      started_at = started_at;
      updated_at = updated_at;
      completed_at = completed_at;
      final_output = copied_text (lookup "final_output" payload);
      error = error;
      cancellation_requested = truth (lookup "cancellation_requested" payload);
      agent_summary = dict_or_none (lookup "agent_summary" payload);
    })
