-- ===== src/Checkpoints/Unreadable.antt =====
-- States that restore_run_state (agent-harness/src/agent_harness/checkpoints/serializer.py) cannot read.
use general_agent_design.Common.{
  String, ◌≡◌, false, some, List, [], ◌∷◌, arith, Bool-cases, inl, inr,
}
use general_agent_design.Common.Dict.{lookup}
use general_agent_design.Domain.Errors.{err, Exception, value_error}
use general_agent_design.Tools.Runtime.{RawArguments, parsed, unparsed, iterate}
use general_agent_design.Checkpoints.Snapshot.{
  CallState, MessageState, Snapshot, arguments_value, call_value, call_values, message_value,
  message_values, serialize_run_state,
}
use general_agent_design.Checkpoints.Serializer.{
  Reader, dict_or_empty, restore_call, restore_calls, restore_message, restore_messages,
  restore_run_state,
}
use general_agent_design.Checkpoints.RoundTrip.{
  is_read, calls_are_read, is_restorable, status_of-status_text, restore_usage-usage_value,
  moment_at-isoformat, optional_moment-moment_or_null, restore_error-error_value,
  restore_call-call_value, restore_message-message_value, ReadsBack,
}

-- What `dict` of a text that is not empty raises.
abbrev pub unreadable : Exception
unreadable = value_error "dictionary update sequence element #0 has length 1; 2 is required"

dict_or_empty_unread :
    (a : RawArguments)
    → is_read a ≡ false
    → dict_or_empty (some (arguments_value a)) ≡ err unreadable
dict_or_empty_unread (parsed d) h = absurd cc
dict_or_empty_unread (unparsed s) h = ground (arith, h)

module _ {T : Type 0} (isoformat : T → String) (r : Reader T) where
  restore_call_unread :
      (c : CallState) → is_read c.arguments ≡ false → restore_call r (call_value c) ≡ err unreadable
  unfolding restore_call call_value lookup
  restore_call_unread c h = rw (dict_or_empty_unread c.arguments h)

  restore_calls_unread :
      (cs : List CallState)
      → calls_are_read cs ≡ false
      → restore_calls r (call_values cs) ≡ err unreadable
  unfolding restore_calls call_values
  restore_calls_unread [] h = absurd cc
  restore_calls_unread (c ∷ cs) h = elim (Bool-cases (is_read c.arguments)) [
    | inl y ↦
        rw (restore_call-call_value isoformat r c y, restore_calls_unread cs (ground (arith, y)))
    | inr n ↦ rw (restore_call_unread c n)
  ]

  restore_message_unread :
      (m : MessageState T)
      → calls_are_read m.tool_calls ≡ false
      → restore_message r (message_value isoformat m) ≡ err unreadable
  unfolding restore_message message_value lookup iterate
  restore_message_unread m h = rw (restore_calls_unread m.tool_calls h)

  restore_messages_unread :
      (ms : List (MessageState T))
      → is_restorable ms ≡ false
      → restore_messages r (message_values isoformat ms) ≡ err unreadable
  unfolding restore_messages message_values
  restore_messages_unread [] h = absurd cc
  restore_messages_unread (m ∷ ms) h = elim (Bool-cases (calls_are_read m.tool_calls)) [
    | inl y ↦ rw (
      restore_message-message_value isoformat r m y,
      restore_messages_unread ms (ground (arith, y)),
    )
    | inr n ↦ rw (restore_message_unread m n)
  ]

  -- A state with a tool call whose arguments are a text that is no JSON, as the provider leaves them,
  -- is written to a checkpoint, but the checkpoint cannot be restored: a ValueError is raised.
  pub restore_unreadable :
      ReadsBack isoformat r
      → (s : Snapshot T) (root : String) (now : T) → is_restorable s.messages ≡ false
      → restore_run_state r (serialize_run_state isoformat s) root now ≡ err unreadable
  unfolding restore_run_state serialize_run_state lookup iterate
  restore_unreadable b s root now h = rw (
    status_of-status_text s.status,
    restore_usage-usage_value isoformat r s.usage_total,
    moment_at-isoformat isoformat r b s.started_at now,
    moment_at-isoformat isoformat r b s.updated_at now,
    optional_moment-moment_or_null isoformat r b s.completed_at,
    restore_error-error_value isoformat r s.error,
    restore_messages_unread s.messages h,
  )
