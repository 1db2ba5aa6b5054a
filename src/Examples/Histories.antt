-- ===== src/Examples/Histories.antt =====
-- A recorder on an empty file that is told to record one item, and whose write is cut short.
use general_agent_design.Common.{String, ◌≡◌, refl, true, none, some, [], ◌∷◌, arith}
use general_agent_design.Domain.Errors.{other}
use general_agent_design.Rollout.Items.{completed, RolloutItem}
use general_agent_design.Rollout.Recorder.{
  open_, at_work, absent, write, Recorder, Fate, durable_write, flush_command, torn,
  all_but_newline, nothing, writer_step,
}
use general_agent_design.Rollout.Recorder.Liveness.{is_acked, run_writer, run_writer-acked}

abbrev digest : RolloutItem → String
digest i = i.item_id

abbrev message : RolloutItem
message = record {
  item_id = "item_1";
  item_type = "user_message";
  session_id = "s";
  thread_id = "t";
  turn_id = some "u";
  agent_id = none;
  parent_agent_id = none;
  child_thread_id = none;
  status = completed;
  created_at = "now";
  completed_at = none;
  payload = [];
  schema_version = 2;
  sequence_number = 0;
  previous_hash = "";
  item_hash = "";
}

abbrev opened : Recorder
opened = record {
  state = open_;
  failure = none;
  writer = absent;
  queue = [];
  sequence = 0;
  previous_hash = "";
  lines = [];
  acks = [];
}

abbrev queued : Recorder
queued = record opened { writer = at_work; queue = write (message ∷ []) ∷ [] }

abbrev cut : Recorder
cut = writer_step digest (torn 1 0 all_but_newline (other "No space left on device")) queued

abbrev failing : Fate
failing = torn 1 0 nothing (other "No space left on device")

abbrev flushing : Recorder
flushing = record queued { queue = write (message ∷ []) ∷ flush_command 7 ∷ [] }

run_writer-acked_example :
    is_acked 7 (run_writer digest (failing ∷ durable_write ∷ []) flushing).acks ≡ true
run_writer-acked_example =
    run_writer-acked digest 7 1 (failing ∷ durable_write ∷ []) flushing
      (record {
        at_it = refl;
        sound = refl;
        front = write (message ∷ []) ∷ [];
        back = [];
        queued = refl;
        open_front = refl;
        ahead = refl;
      })
      (omega arith)
