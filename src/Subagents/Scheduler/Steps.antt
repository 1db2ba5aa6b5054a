-- ===== src/Subagents/Scheduler/Steps.antt =====
-- The scheduler as a transition system: the calls of the root agent and the awaits of the child tasks,
-- in any order. The id of a new thread is one that no thread has (new_id).
use general_agent_design.Common.{◌<◌, String, ◌≡◌, Bool, none, some}
use general_agent_design.Common.Dict.{lookup}
use general_agent_design.Domain.Errors.{RunError}
use general_agent_design.Runtime.Budgets.{RunLimits}
use general_agent_design.Subagents.Types.{AgentThreadState, DelegationRequest}
use general_agent_design.Subagents.Scheduler.{
  fresh, waiting, inside, SchedulerConfig, Scheduler, new_scheduler, spawn, send_message, cancel,
  close,
}
use general_agent_design.Subagents.Scheduler.Child.{
  ChildOutcome, enter, start, drain_mailbox, finish,
}

pub data Step (c : SchedulerConfig) : Scheduler → Scheduler → Type 0 where
  spawns :
      (request : DelegationRequest) (agent_id : String) (s : Scheduler)
      → lookup agent_id s.threads ≡ none
      → Step c s (spawn c request agent_id s).1
  sends :
      (agent_id message : String) (s : Scheduler) → Step c s (send_message c agent_id message s).1
  cancels : (agent_id : String) (s : Scheduler) → Step c s (cancel agent_id s).1
  closes : (agent_id : String) (force : Bool) (s : Scheduler) → Step c s (close agent_id force s).1
  starts :
      (agent_id : String) (t : AgentThreadState) (s : Scheduler)
      → lookup agent_id s.threads ≡ some t
      → lookup agent_id s.tasks ≡ some fresh
      → Step c s (start agent_id t s)
  acquires :
      (agent_id : String) (t : AgentThreadState) (s : Scheduler)
      → lookup agent_id s.threads ≡ some t
      → lookup agent_id s.tasks ≡ some waiting
      → 0 < s.permits
      → Step c s (enter agent_id t s)
  drains :
      (agent_id : String) (t : AgentThreadState) (s : Scheduler)
      → lookup agent_id s.threads ≡ some t
      → lookup agent_id s.tasks ≡ some inside
      → Step c s (drain_mailbox agent_id t s).1
  finishes :
      (agent_id : String) (outcome : ChildOutcome) (e : RunError) (t : AgentThreadState)
      (s : Scheduler)
      → lookup agent_id s.threads ≡ some t
      → lookup agent_id s.tasks ≡ some inside
      → Step c s (finish agent_id outcome e t s)

pub data Reach (c : SchedulerConfig) (limits : RunLimits) : Scheduler → Type 0 where
  initial : Reach c limits (new_scheduler c limits)
  after : {s t : Scheduler} → Reach c limits s → Step c s t → Reach c limits t
