-- ===== src/Subagents/Scheduler.antt =====
-- agent-harness/src/agent_harness/runtime/subagents/scheduler.py. A method runs up to its next await;
-- the child task's own awaits are the events start, acquire, drain and finish. Trace events and
-- notifications of the condition are left out. `permits` is the value of the asyncio semaphore.
mod State
pub mod Child
pub mod Steps
pub mod Invariant
pub mod Preservation
pub mod Shutdown
pub mod Leases
unfoldable pub use State.*
use Prim.Native.Nat.{max}
use Prim.Native.String
use Prim.Native.String.{count}
use general_agent_design.Common.{
  ℕ, suc, ◌+◌, ◌-◌, String, Bool, true, false, not, ◌&&◌, Option, none, some, List, [], ◌∷◌, ◌++◌,
  length, ltb, leb, is_some, ◌==◌, if◌then◌else◌,
}
use general_agent_design.Common.Dict.{Dict, lookup, insert, has}
use general_agent_design.Domain.Errors.{
  RunError, HarnessError, to_run_error, cancellation, harness, Exception, value_error, Result, ok,
  err, fail, ◌>>=◌,
}
use general_agent_design.Runtime.Budgets.{
  RunLimits, RunBudgetManager, new_budget, reserve_child, release_child,
}
use general_agent_design.Security.Models.{given}
use general_agent_design.Subagents.Types.{
  AgentThreadStatus, created, queued, running, idle, cancelling, cancelled, failed, closed,
  AgentDefinition, SubagentResult, AgentThreadState, DelegationRequest, is_active, is_settled,
  is_over,
}

abbrev pub new_thread : AgentDefinition → DelegationRequest → AgentThreadState
new_thread definition request = record {
  agent_definition_name = definition.name;
  depth = 1;
  task = request.task;
  status = created;
  turn_count = 0;
  mailbox = [];
  last_result = none;
  error = none;
}

abbrev remember : Option String → String → Dict String → Dict String
remember none agent_id d = d
remember (some key) agent_id d = if key == "" then d else insert key agent_id d

-- What spawn does once the budget has answered; a refusal leaves the thread where it is.
abbrev pub reserved :
    AgentDefinition
    → DelegationRequest
    → String
    → Result RunBudgetManager
    → Scheduler
    → Result StatusView × Scheduler
reserved definition request agent_id (err e) s = (err e, s)
reserved definition request agent_id (ok b) s =
    let t : AgentThreadState = record (new_thread definition request) { status = queued } in
    (
      ok (view agent_id t),
      record s {
        threads = insert agent_id t s.threads;
        tasks = insert agent_id fresh s.tasks;
        idempotency = remember request.idempotency_key agent_id s.idempotency;
        budget = b;
      },
    )

-- The checks on the definition, and the creation of the thread under the new id.
abbrev pub create :
    SchedulerConfig
    → DelegationRequest
    → String
    → Result AgentDefinition
    → Scheduler
    → Result StatusView × Scheduler
create c request agent_id (err e) s = (err e, s)
create c request agent_id (ok definition) s =
    if definition.can_spawn_subagents
    then (fail harness "Root agent cannot be spawned as a child", s)
    else if ltb c.max_depth definition.max_depth
    then (fail harness "Subagent depth limit reached", s)
    else reserved definition request agent_id (reserve_child s.budget agent_id definition.limits)
        (put_thread agent_id (new_thread definition request) s)

abbrev pub known_key : Option String → Dict String → Option String
known_key none d = none
known_key (some key) d = if key == "" then none else lookup key d

-- spawn, with the id that new_id made for the thread
unfoldable pub spawn :
    SchedulerConfig → DelegationRequest → String → Scheduler → Result StatusView × Scheduler
spawn c request agent_id s = elim (known_key request.idempotency_key s.idempotency) [
  | some known ↦ (status_of s known, s)
  | none ↦
      if leb c.max_total (length s.threads)
      then (fail harness "Subagent creation limit reached", s)
      else create c request agent_id (find_agent c request.agent_name) s
]

abbrev pub is_idle : AgentThreadStatus → Bool
is_idle idle = true
is_idle _ = false

unfoldable pub send_to :
    SchedulerConfig → String → String → AgentThreadState → Scheduler → Result (Unit {0}) × Scheduler
send_to c agent_id message t s =
    if is_over t.status
    then (fail harness "Cannot send follow-up to inactive child agent", s)
    else if ltb c.max_followup_message_chars (count message)
    then (fail harness "Follow-up message is too long", s)
    else if leb c.max_turns_per_thread t.turn_count
    then (fail harness "Child thread turn limit reached", s)
    else (let posted : AgentThreadState = record t { mailbox = t.mailbox ++ message ∷ [] } in
        if is_idle t.status
        then (
          ok tt,
          put_task agent_id fresh (put_thread agent_id (record posted { status = queued }) s),
        )
        else (ok tt, put_thread agent_id posted s))

unfoldable pub send_message :
    SchedulerConfig → String → String → Scheduler → Result (Unit {0}) × Scheduler
unfolding send_to
send_message c agent_id message s = elim (lookup agent_id s.threads) [
  | none ↦ (fail harness (unknown_child agent_id), s)
  | some t ↦ send_to c agent_id message t s
]

abbrev is_cancelled : AgentThreadStatus → Bool
is_cancelled cancelled = true
is_cancelled _ = false

-- _mark_cancelled
unfoldable pub mark_cancelled : AgentThreadState → AgentThreadState
mark_cancelled t = if is_cancelled t.status then t else record t {
  status = cancelled;
  error = some (to_run_error (record { class = cancellation; message = "Child agent cancelled" }));
}

-- The end of a task that the semaphore had let in: the permit and the count go back.
abbrev pub leave : Scheduler → Scheduler
leave s = record s { permits = s.permits + 1; running_count = s.running_count - 1 }

-- task.cancel() and the wait for the task: a task that has not started never runs its `finally`.
unfoldable pub unwind : String → Option TaskState → Scheduler → Scheduler
unwind agent_id none s = s
unwind agent_id (some done) s = s
unwind agent_id (some fresh) s = put_task agent_id done s
unwind agent_id (some waiting) s =
    put_task agent_id done (record s { budget = release_child s.budget agent_id 0 0 })
unwind agent_id (some inside) s =
    put_task agent_id done (leave (record s { budget = release_child s.budget agent_id 0 0 }))

unfoldable pub cancel_thread : String → AgentThreadState → Scheduler → Scheduler
unfolding unwind mark_cancelled
cancel_thread agent_id t s =
    if is_over t.status
    then s
    else put_thread agent_id (mark_cancelled (record t { status = cancelling }))
        (unwind agent_id (lookup agent_id s.tasks) s)

unfoldable pub cancel : String → Scheduler → Result (Unit {0}) × Scheduler
unfolding cancel_thread
cancel agent_id s = elim (lookup agent_id s.threads) [
  | none ↦ (fail harness (unknown_child agent_id), s)
  | some t ↦ (ok tt, cancel_thread agent_id t s)
]

abbrev pub mark_closed : String → Option AgentThreadState → Scheduler → Scheduler
mark_closed agent_id none s = s
mark_closed agent_id (some t) s = put_thread agent_id (record t { status = closed }) s

unfoldable pub close_thread :
    String → Bool → AgentThreadState → Scheduler → Result (Unit {0}) × Scheduler
close_thread agent_id force t s =
    if is_active t.status && not force
    then (fail harness "Cannot close active child without force=true", s)
    else (let s' = if force && is_active t.status then cancel_thread agent_id t s else s in
        (ok tt, mark_closed agent_id (lookup agent_id s'.threads) s'))

unfoldable pub close : String → Bool → Scheduler → Result (Unit {0}) × Scheduler
close agent_id force s = elim (lookup agent_id s.threads) [
  | none ↦ (fail harness (unknown_child agent_id), s)
  | some t ↦ close_thread agent_id force t s
]

unfoldable pub active_agent_ids : Dict AgentThreadState → List String
active_agent_ids [] = []
active_agent_ids ((agent_id, t) ∷ d) =
    if is_active t.status then agent_id ∷ active_agent_ids d else active_agent_ids d

unfoldable pub cancel_each : List String → Scheduler → Scheduler
cancel_each [] s = s
cancel_each (agent_id ∷ ids) s = cancel_each ids (cancel agent_id s).1

-- cancel_all; its last line waits for tasks that are done by then.
unfoldable pub cancel_all : Scheduler → Scheduler
unfolding cancel_each
cancel_all s = cancel_each (active_agent_ids s.threads) s

unfoldable pub is_done : Scheduler → String → Bool
is_done s agent_id = elim (lookup agent_id s.threads) [
  | none ↦ false
  | some t ↦ is_settled t.status
]
