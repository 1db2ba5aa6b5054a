-- ===== src/Turns/Controller.antt =====
-- agent-harness/src/agent_harness/turns/controller.py: TurnController, with what it changes of its
-- LiveThread. The run's state is an argument and a result, since the methods write to it. How the three
-- awaits of _finalize end, and the call of summary_writer, is a parameter, `Awaits`. The bounded wait of cancel_shielded and timestamps are
-- left out.
pub mod Once
use general_agent_design.Common.{
  ℕ, String, Bool, true, false, Option, none, some, List, [], ◌∷◌, ◌++◌, if◌then◌else◌,
}
use general_agent_design.Domain.Errors.{Result, ok, err, RunError, to_run_error, cancellation}
use general_agent_design.Agent.State.{Usage, RunState, RunStatus}
use general_agent_design.Rollout.Items.{ItemStatus}

pub data ThreadStatus : Type 0 where
  created idle active closing closed failed recovery_required : ThreadStatus

-- _terminal_payload
pub record TerminalPayload : Type 0 where
  pub final_output : Option String
  pub error : Option RunError
  pub iteration : ℕ
  pub model_call_count : ℕ
  pub tool_call_count : ℕ
  pub usage : Usage

-- The items that a turn appends, each by its type and payload.
pub data TurnItem : Type 0 where
  turn_started : ℕ → TurnItem
  user_message : String → TurnItem
  agent_message : Option String → RunStatus → Option RunError → TurnItem
  terminal_item : String → ItemStatus → TerminalPayload → TurnItem

pub record Turn : Type 0 where
  pub turn_id : String
  pub status : ThreadStatus
  pub active_turn_id : Option String
  pub items : List TurnItem
  pub summaries : List RunState
  pub finalized : Bool

-- How append_items, update_metadata, flush and summary_writer end.
pub record Awaits : Type 0 where
  pub append : Result (Unit {0})
  pub metadata : Result (Unit {0})
  pub flush : Result (Unit {0})
  pub summary : Result (Unit {0})

-- The methods that finalize a turn.
pub data Finish : Type 0 where
  complete fail recover : Finish
  cancel interrupt : String → Finish

unfoldable pub start : String → ℕ → Turn → Turn
start user_text turn_number t = record t {
  active_turn_id = some t.turn_id;
  status = active;
  items = t.items ++ (turn_started turn_number ∷ user_message user_text ∷ []);
}

abbrev pub terminal_payload : RunState → TerminalPayload
terminal_payload r = record {
  final_output = r.final_output;
  error = r.error;
  iteration = r.iteration;
  model_call_count = r.model_call_count;
  tool_call_count = r.tool_call_count;
  usage = r.usage_total;
}

-- CancellationError(reason).to_run_error()
abbrev pub cancellation_error : String → RunError
cancellation_error reason = to_run_error (record { class = cancellation; message = reason })

abbrev pub or_else : Option RunError → RunError → RunError
or_else none e = e
or_else (some d) e = d

-- What the method does to the run's state before _finalize.
unfoldable pub prepare : Finish → RunState → RunState
prepare (cancel reason) r = record r {
  status = RunStatus.cancelled;
  error = some (cancellation_error reason);
}
prepare (interrupt reason) r = record r {
  error = some (or_else r.error (cancellation_error reason));
}
prepare _ r = r

abbrev pub by_status : RunStatus → String × ItemStatus
by_status RunStatus.completed = ("turn.completed", ItemStatus.completed)
by_status RunStatus.cancelled = ("turn.cancelled", ItemStatus.cancelled)
by_status _ = ("turn.failed", ItemStatus.failed)

-- The type and the status of the terminal item.
abbrev pub kind_of : Finish → RunState → String × ItemStatus
kind_of complete r = ("turn.completed", ItemStatus.completed)
kind_of fail r = ("turn.failed", ItemStatus.failed)
kind_of recover r = by_status r.status
kind_of (cancel reason) r = ("turn.cancelled", ItemStatus.cancelled)
kind_of (interrupt reason) r = ("turn.interrupted", ItemStatus.interrupted)

abbrev pub terminal_of : Finish → RunState → TurnItem
terminal_of f r =
    terminal_item (kind_of f (prepare f r)).0 (kind_of f (prepare f r)).1
      (terminal_payload (prepare f r))

abbrev pub summarized : Result (Unit {0}) → RunState → Turn → Result (Unit {0}) × Turn
summarized (err x) r t = (err x, t)
summarized (ok _) r t = (ok tt, record t { summaries = t.summaries ++ (r ∷ []); finalized = true })

abbrev pub flushed : Awaits → RunState → Turn → Result (Unit {0}) × Turn
flushed a r t = elim a.flush [ err x ↦ (err x, t) | ok _ ↦ summarized a.summary r t ]

abbrev pub settled : Awaits → RunState → Turn → Result (Unit {0}) × Turn
settled a r t = elim a.metadata [ err x ↦ (err x, t) | ok _ ↦ flushed a r t ]

-- _finalize, for the item that it is to append.
unfoldable pub finalize : Awaits → TurnItem → RunState → Turn → Result (Unit {0}) × Turn
finalize a item r t = if t.finalized then (ok tt, t) else elim a.append [
  | err x ↦ (err x, t)
  | ok _ ↦ settled a r (record t {
    items = t.items ++ (agent_message r.final_output r.status r.error ∷ item ∷ []);
    status = idle;
    active_turn_id = none;
  })
]

-- complete, fail, cancel, finalize_recovered and interrupt, with the run's state after them.
unfoldable pub finish : Awaits → Finish → RunState → Turn → Result (Unit {0}) × RunState × Turn
unfolding finalize prepare
finish a f r t =
    let r' = prepare f r in let done = finalize a (terminal_of f r) r' t in (done.0, r', done.1)

abbrev pub all_well : Awaits
all_well = record { append = ok tt; metadata = ok tt; flush = ok tt; summary = ok tt }

-- Several methods one after the other, with awaits and summaries that end well.
unfoldable pub finish_each : List Finish → RunState → Turn → RunState × Turn
finish_each [] r t = (r, t)
finish_each (f ∷ fs) r t = let done = finish all_well f r t in finish_each fs done.1 done.2
