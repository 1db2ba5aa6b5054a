-- ===== src/Examples/Compactions.antt =====
-- A history of two turns, of which one is retained.
use general_agent_design.Common.{String, ◌≡◌, refl, arith, false, some, none, [], ◌∷◌}
use Prim.Native.String
use general_agent_design.Domain.Errors.{ok}
use general_agent_design.Agent.State.{MessageRole, user, tool, completed}
use general_agent_design.Tools.Runtime.{take_text}
use general_agent_design.Compaction.{
  CompactionRecord, row_of, HistoryMessage, History, Service, user_indexes, boundary, source_of,
  split_at, record_of, compact, apply_latest,
}
use general_agent_design.Compaction.Replay.{IsCompacted, compact-IsCompacted, apply_latest-compact}

abbrev says : MessageRole → String → String → HistoryMessage
says role id content = record {
  message = record {
    role = role;
    content = content;
    tool_calls = [];
    tool_call_id = none;
    tool_name = none;
  };
  message_id = id;
  external_context = false;
}

abbrev history : History
history = record {
  status = completed;
  run_id = "t";
  turn_id = some "u";
  session_summary = "";
  messages = says user "m1" "one" ∷ says tool "m2" "data" ∷ says user "m3" "two" ∷ [];
}

abbrev service : Service
service = record { retain_recent_turns = 1; max_summary_chars = 100 }

abbrev digest : String → String
digest s = String.◌++◌ "#" s

abbrev made : CompactionRecord
made = record {
  compaction_id = "k";
  thread_id = "t";
  turn_id = "u";
  source_hash = "#user: one";
  summary_text = "user: one";
  summary_hash = "#user: one";
  protected_message_ids = "m2" ∷ [];
  created_at = "now";
}

abbrev shorter : History
shorter = record history {
  session_summary = "user: one";
  messages = says tool "m2" "data" ∷ says user "m3" "two" ∷ [];
}

is_made : compact digest service "k" "now" history [] ≡ (ok (some made), shorter, row_of made ∷ [])
unfolding compact record_of split_at boundary user_indexes source_of take_text
is_made = refl

compact-IsCompacted_example : IsCompacted digest service history shorter
compact-IsCompacted_example =
    compact-IsCompacted digest service "k" "now" history shorter made [] (row_of made ∷ [])
      (omega arith) is_made

apply_latest-compact_example :
    apply_latest digest service history (row_of made ∷ []) ≡ (ok (some made), shorter)
apply_latest-compact_example =
    apply_latest-compact digest service "k" "now" history shorter history made [] (row_of made ∷ [])
      is_made refl refl refl refl
