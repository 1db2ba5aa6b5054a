-- ===== src/Subagents/Scheduler/Child.antt =====
-- The child's own task, _run_child: what happens between two of its awaits.
use Prim.Native.Nat.{max}
use general_agent_design.Common.{
  ℕ, ◌+◌, ◌-◌, String, Bool, true, false, Option, none, some, List, [], eqb, if◌then◌else◌,
}
use general_agent_design.Common.Dict.{insert}
use general_agent_design.Domain.Errors.{RunError}
use general_agent_design.Runtime.Budgets.{release_child}
use general_agent_design.Subagents.Types.{AgentThreadState, running, idle, failed, SubagentResult}
use general_agent_design.Subagents.Scheduler.{
  waiting, inside, done, Scheduler, put_thread, put_task, leave,
}

-- How the child's agent loop ended: completed with an output that could be read (and its result file
-- written or not), completed with an unreadable output or an exception of any kind, or not completed.
-- The two numbers are the model and tool calls of the turn.
pub data ChildOutcome : Type 0 where
  completed : SubagentResult → Bool → ℕ → ℕ → ChildOutcome
  crashed : RunError → ChildOutcome
  unfinished : Option RunError → ℕ → ℕ → ChildOutcome

-- Entering `async with self._semaphore`.
unfoldable pub enter : String → AgentThreadState → Scheduler → Scheduler
enter agent_id t s = record s {
  permits = s.permits - 1;
  running_count = s.running_count + 1;
  max_concurrent_observed = max s.max_concurrent_observed (s.running_count + 1);
  threads =
      insert agent_id (record t { status = running; turn_count = t.turn_count + 1 }) s.threads;
  tasks = insert agent_id inside s.tasks;
}

-- The first step of a task: it enters, or waits for the semaphore.
unfoldable pub start : String → AgentThreadState → Scheduler → Scheduler
unfolding enter
start agent_id t s = if eqb s.permits 0 then put_task agent_id waiting s else enter agent_id t s

-- _drain_mailbox
unfoldable pub drain_mailbox : String → AgentThreadState → Scheduler → List String × Scheduler
drain_mailbox agent_id t s = (t.mailbox, put_thread agent_id (record t { mailbox = [] }) s)

unfoldable pub ended : ChildOutcome → RunError → AgentThreadState → AgentThreadState
ended (completed r true models tools) e t = record t { last_result = some r; status = idle }
ended (completed r false models tools) e t = record t {
  last_result = some r;
  status = failed;
  error = some e;
}
ended (crashed x) e t = record t { status = failed; error = some x }
ended (unfinished x models tools) e t = record t { status = failed; error = x }

-- The calls that are reported to release_child before the `finally` block reports none.
abbrev pub reported : ChildOutcome → Option (ℕ × ℕ)
reported (completed r true models tools) = some (models, tools)
reported (unfinished x models tools) = some (models, tools)
reported _ = none

abbrev pub report : String → Option (ℕ × ℕ) → Scheduler → Scheduler
report agent_id none s = s
report agent_id (some (models, tools)) s = record s {
  budget = release_child s.budget agent_id models tools;
}

-- The end of a turn and the `finally` block; `e` is the error of a result file that cannot be written.
unfoldable pub finish : String → ChildOutcome → RunError → AgentThreadState → Scheduler → Scheduler
unfolding ended
finish agent_id outcome e t s =
    let s' = report agent_id (reported outcome) s in
    put_task agent_id done (
      leave (
        put_thread agent_id (ended outcome e t)
          (record s' { budget = release_child s'.budget agent_id 0 0 })))
