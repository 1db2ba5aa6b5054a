-- ===== src/Subagents/Scheduler/State.antt =====
-- agent-harness/src/agent_harness/runtime/subagents/scheduler.py: the fields of SubagentScheduler, _get
-- and status.
use Prim.Native.String
use Prim.Native.String.{count}
use general_agent_design.Common.{ℕ, String, Bool, Option, none, some, [], is_some}
use general_agent_design.Common.Dict.{Dict, lookup, insert}
use general_agent_design.Domain.Errors.{
  RunError, harness, value_error, Result, ok, err, fail, ◌>>=◌,
}
use general_agent_design.Runtime.Budgets.{RunLimits, RunBudgetManager, new_budget}
use general_agent_design.Subagents.Types.{AgentThreadStatus, AgentDefinition, AgentThreadState}

-- The asyncio task of a child: created and not yet started, waiting for the semaphore, inside
-- `async with self._semaphore`, or done.
pub data TaskState : Type 0 where
  fresh waiting inside done : TaskState

pub record SchedulerConfig : Type 0 where
  pub max_concurrent : ℕ
  pub max_total : ℕ
  pub max_depth : ℕ
  pub max_followup_message_chars : ℕ
  pub max_turns_per_thread : ℕ
  pub registry : Dict AgentDefinition

pub record Scheduler : Type 0 where
  pub threads : Dict AgentThreadState
  pub tasks : Dict TaskState
  pub idempotency : Dict String
  pub budget : RunBudgetManager
  pub permits : ℕ
  pub running_count : ℕ
  pub max_concurrent_observed : ℕ

unfoldable pub new_scheduler : SchedulerConfig → RunLimits → Scheduler
new_scheduler c limits = record {
  threads = [];
  tasks = [];
  idempotency = [];
  budget = new_budget limits;
  permits = c.max_concurrent;
  running_count = 0;
  max_concurrent_observed = 0;
}

pub record StatusView : Type 0 where
  pub agent_id : String
  pub agent_name : String
  pub status : AgentThreadStatus
  pub task : String
  pub turn_count : ℕ
  pub has_result : Bool
  pub error : Option RunError

abbrev pub put_thread : String → AgentThreadState → Scheduler → Scheduler
put_thread agent_id t s = record s { threads = insert agent_id t s.threads }

abbrev pub put_task : String → TaskState → Scheduler → Scheduler
put_task agent_id t s = record s { tasks = insert agent_id t s.tasks }

abbrev pub unknown_child : String → String
unknown_child agent_id = String.◌++◌ "Unknown child agent: " agent_id

-- _get
unfoldable pub get : Scheduler → String → Result AgentThreadState
get s agent_id = elim (lookup agent_id s.threads) [
  | some t ↦ ok t
  | none ↦ fail harness (unknown_child agent_id)
]

abbrev pub view : String → AgentThreadState → StatusView
view agent_id t = record {
  agent_id = agent_id;
  agent_name = t.agent_definition_name;
  status = t.status;
  task = t.task;
  turn_count = t.turn_count;
  has_result = is_some t.last_result;
  error = t.error;
}

unfoldable pub status_of : Scheduler → String → Result StatusView
unfolding get
status_of s agent_id = do t ← get s agent_id; ok (view agent_id t)

-- AgentRegistry.get
unfoldable pub find_agent : SchedulerConfig → String → Result AgentDefinition
find_agent c name = elim (lookup name c.registry) [
  | some d ↦ ok d
  | none ↦ err (value_error (String.◌++◌ "Unknown agent: " name))
]
