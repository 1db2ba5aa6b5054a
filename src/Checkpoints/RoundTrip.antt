-- ===== src/Checkpoints/RoundTrip.antt =====
-- A RunState through serialize_run_state and restore_run_state
-- (agent-harness/src/agent_harness/checkpoints/serializer.py).
use general_agent_design.Common.{
  ℕ, String, ◌≡◌, ◌≢◌, refl, ap, Bool, true, Option, some, none, List, [], ◌∷◌, ◌==◌, map, arith,
  ==-eq-false, eq_iff, all,
}
use general_agent_design.Common.Dict.{Dict, lookup}
use general_agent_design.Domain.Errors.{ok}
use general_agent_design.Agent.State.{RunStatus, created, running, completed, failed, cancelled}
use general_agent_design.Domain.Json.{Value, text}
use general_agent_design.Tools.Runtime.{
  RawArguments, parsed, unparsed, entries, as_members, iterate,
}
use general_agent_design.Checkpoints.Snapshot.{
  CallState, Stamp, moment, written, unstamped, MessageState, UsageState, ErrorState, Snapshot,
  or_null, count_or_null, object, status_text, arguments_value, call_value, call_values,
  usage_value, error_value, stamp_value, moment_or_null, dict_or_null, message_value,
  message_values, serialize_run_state,
}
use general_agent_design.Checkpoints.Serializer.{
  Reader, copied_text, copied_count, dict_or_empty, dict_or_none, status_of, stamp_of,
  text_or_empty, moment_at, optional_moment, restore_error, restore_call, restore_calls,
  restore_message, restore_messages, restore_usage, restore_run_state,
}

-- The arguments of a call are no text that is left to be read.
abbrev pub is_read : RawArguments → Bool
is_read (parsed d) = true
is_read (unparsed s) = s == ""

abbrev pub calls_are_read : List CallState → Bool
calls_are_read cs = all (λ c. is_read c.arguments) cs

abbrev pub is_restorable : {T : Type 0} → List (MessageState T) → Bool
is_restorable ms = all (λ m. calls_are_read m.tool_calls) ms

abbrev read_arguments : RawArguments → Dict Value
read_arguments (parsed d) = d
read_arguments (unparsed s) = []

-- What a checkpoint keeps of a call, of a message and of a state.
abbrev pub kept_call : CallState → CallState
kept_call c = record {
  id = c.id;
  name = c.name;
  arguments = parsed (read_arguments c.arguments);
  raw_arguments = none;
  provider_metadata = [];
  sequence_index = 0;
}

entries-as_members : (d : Dict Value) → entries (as_members d) ≡ d
entries-as_members [] = refl
entries-as_members ((k, v) ∷ d) = ap (◌∷◌ (k, v)) (entries-as_members d)

dict_or_empty-object : (d : Dict Value) → dict_or_empty (some (object d)) ≡ ok d
dict_or_empty-object [] = refl
dict_or_empty-object ((k, v) ∷ d) = ap (λ e. ok ((k, v) ∷ e)) (entries-as_members d)

dict_or_empty-arguments :
    (a : RawArguments)
    → is_read a ≡ true
    → dict_or_empty (some (arguments_value a)) ≡ ok (read_arguments a)
dict_or_empty-arguments (parsed d) h = dict_or_empty-object d
dict_or_empty-arguments (unparsed s) h = ground (arith, h)

copied_text-or_null : (o : Option String) → copied_text (some (or_null o)) ≡ o
copied_text-or_null none = refl
copied_text-or_null (some s) = refl

copied_count-or_null : (o : Option ℕ) → copied_count (some (count_or_null o)) ≡ o
copied_count-or_null none = refl
copied_count-or_null (some n) = refl

pub status_of-status_text : (s : RunStatus) → status_of (status_text s) ≡ ok s
status_of-status_text created = refl
status_of-status_text running = refl
status_of-status_text completed = refl
status_of-status_text failed = refl
status_of-status_text cancelled = refl

module _ {T : Type 0} (isoformat : T → String) (r : Reader T) where
  abbrev kept_stamp : Stamp T → Stamp T
  kept_stamp (moment t) = written (isoformat t)
  kept_stamp s = s

  abbrev pub kept_message : MessageState T → MessageState T
  kept_message m = record m {
    tool_calls = map kept_call m.tool_calls;
    created_at = kept_stamp m.created_at;
  }

  text_or_empty-text : (s : String) → text_or_empty r (some (text s)) ≡ s
  text_or_empty-text s = ground (arith, eq_iff s "")

  pub restore_call-call_value :
      (c : CallState)
      → is_read c.arguments ≡ true
      → restore_call r (call_value c) ≡ ok (kept_call c)
  unfolding restore_call call_value lookup
  restore_call-call_value c h = rw (dict_or_empty-arguments c.arguments h)

  restore_calls-call_values :
      (cs : List CallState)
      → calls_are_read cs ≡ true
      → restore_calls r (call_values cs) ≡ ok (map kept_call cs)
  unfolding restore_calls call_values
  restore_calls-call_values [] h = refl
  restore_calls-call_values (c ∷ cs) h = rw (
    restore_call-call_value c (ground (arith, h)),
    restore_calls-call_values cs (ground (arith, h)),
  )

  stamp_of-stamp_value : (t : Stamp T) → stamp_of (some (stamp_value isoformat t)) ≡ kept_stamp t
  stamp_of-stamp_value (moment t) = refl
  stamp_of-stamp_value (written s) = refl
  stamp_of-stamp_value unstamped = refl

  pub restore_message-message_value :
      (m : MessageState T)
      → calls_are_read m.tool_calls ≡ true
      → restore_message r (message_value isoformat m) ≡ ok (kept_message m)
  unfolding restore_message message_value lookup iterate
  restore_message-message_value m h = rw (
    restore_calls-call_values m.tool_calls h,
    dict_or_empty-object m.metadata,
    text_or_empty-text m.content,
    text_or_empty-text m.message_id,
    copied_text-or_null m.reasoning_content,
    copied_text-or_null m.tool_call_id,
    copied_text-or_null m.tool_name,
    stamp_of-stamp_value m.created_at,
  )

  restore_messages-message_values :
      (ms : List (MessageState T))
      → is_restorable ms ≡ true
      → restore_messages r (message_values isoformat ms) ≡ ok (map kept_message ms)
  unfolding restore_messages message_values
  restore_messages-message_values [] h = refl
  restore_messages-message_values (m ∷ ms) h = rw (
    restore_message-message_value m (ground (arith, h)),
    restore_messages-message_values ms (ground (arith, h)),
  )

  pub restore_usage-usage_value : (u : UsageState) → restore_usage r (some (usage_value u)) ≡ ok u
  unfolding restore_usage usage_value lookup
  restore_usage-usage_value u = rw (
    dict_or_empty-object u.provider_details,
    copied_count-or_null u.input_tokens,
    copied_count-or_null u.output_tokens,
    copied_count-or_null u.total_tokens,
    copied_count-or_null u.cached_input_tokens,
    copied_count-or_null u.cache_miss_input_tokens,
    copied_count-or_null u.reasoning_tokens,
  )

  pub restore_error-error_value :
      (e : Option ErrorState) → restore_error (some (error_value e)) ≡ ok e
  unfolding error_value lookup
  restore_error-error_value none = refl
  restore_error-error_value (some e) =
      rw (entries-as_members e.details, copied_text-or_null e.cause_type)

  dict_or_none-dict_or_null : (d : Option (Dict Value)) → dict_or_none (some (dict_or_null d)) ≡ d
  dict_or_none-dict_or_null none = refl
  dict_or_none-dict_or_null (some d) = ap some (entries-as_members d)

  -- What is kept of a state: the calls and stamps of its messages as above, and the given root.
  abbrev pub kept_state : Snapshot T → String → Snapshot T
  kept_state s root = record s { workspace_root = root; messages = map kept_message s.messages }

  -- A datetime is read back from the text that it is written as, which is not empty.
  pub record ReadsBack : Type 0 where
    pub parses : (t : T) → r.fromisoformat (isoformat t) ≡ ok t
    pub given : (t : T) → isoformat t ≢ ""

  pub moment_at-isoformat :
      ReadsBack → (t now : T) → moment_at r (some (text (isoformat t))) now ≡ ok t
  moment_at-isoformat b t now = ground (arith, b.parses t, ==-eq-false (isoformat t) "" (b.given t))

  pub optional_moment-moment_or_null :
      ReadsBack → (o : Option T) → optional_moment r (some (moment_or_null isoformat o)) ≡ ok o
  optional_moment-moment_or_null b none = refl
  optional_moment-moment_or_null b (some t) =
      rw (==-eq-false (isoformat t) "" (b.given t), b.parses t)

  -- A state whose tool calls all have their arguments read comes back from a checkpoint as it was,
  -- but for the raw texts, metadata and indexes of calls, for datetimes of messages, which come back
  -- as texts, and for the workspace root, which is given anew.
  pub restore-serialize :
      ReadsBack
      → (s : Snapshot T) (root : String) (now : T) → is_restorable s.messages ≡ true
      → restore_run_state r (serialize_run_state isoformat s) root now ≡ ok (kept_state s root)
  unfolding restore_run_state serialize_run_state lookup iterate
  restore-serialize b s root now h = rw (
    status_of-status_text s.status,
    restore_usage-usage_value s.usage_total,
    moment_at-isoformat b s.started_at now,
    moment_at-isoformat b s.updated_at now,
    optional_moment-moment_or_null b s.completed_at,
    restore_error-error_value s.error,
    restore_messages-message_values s.messages h,
    copied_text-or_null s.turn_id,
    copied_text-or_null s.final_output,
    dict_or_none-dict_or_null s.agent_summary,
  )
