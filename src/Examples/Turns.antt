-- ===== src/Examples/Turns.antt =====
-- A turn that is completed and cancelled afterwards, and messages for a turn.
use general_agent_design.Common.{◌≡◌, refl, false, none, some, [], ◌∷◌, ◌++◌}
use general_agent_design.Domain.Errors.{Exception, ok, err, other}
use general_agent_design.Agent.State.{RunState, RunStatus, no_usage}
use general_agent_design.Turns.Mailbox.{InputItem}
use general_agent_design.Turns.Controller.{
  active, Turn, Awaits, complete, cancel, prepare, terminal_of, all_well, finish, finish_each,
}
use general_agent_design.Turns.Controller.Once.{
  IsOver, terminals, terminals-finish_each, terminals-finish_twice,
}

abbrev done : RunState
done = record {
  status = RunStatus.completed;
  messages = [];
  iteration = 1;
  model_call_count = 1;
  tool_call_count = 0;
  usage_total = no_usage;
  final_output = some "done";
  error = none;
}

abbrev turn : Turn
turn = record {
  turn_id = "u";
  status = active;
  active_turn_id = some "u";
  items = [];
  summaries = [];
  finalized = false;
}

abbrev full_disk : Exception
full_disk = other "No space left on device"

abbrev no_metadata : Awaits
no_metadata = record { append = ok tt; metadata = err full_disk; flush = ok tt; summary = ok tt }

terminals-finish_each_example :
    IsOver (finish_each (complete ∷ cancel "late" ∷ []) done turn).1
    × (terminals (finish_each (complete ∷ cancel "late" ∷ []) done turn).1.items
        ≡ terminals turn.items ++ (terminal_of complete done ∷ []))
terminals-finish_each_example = terminals-finish_each complete (cancel "late" ∷ []) done turn refl

terminals-finish_twice_example :
    terminals
      (finish all_well
        (cancel "late")
        (prepare complete done)
        (finish no_metadata complete done turn).2).2.items
    ≡ terminals turn.items
      ++ (terminal_of complete done ∷ terminal_of (cancel "late") (prepare complete done) ∷ [])
terminals-finish_twice_example =
    terminals-finish_twice complete (cancel "late") done turn no_metadata full_disk refl refl refl

abbrev hint : InputItem
hint = record { text = "look at main.py"; input_kind = "steer" }
