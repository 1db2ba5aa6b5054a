-- ===== src/Examples/Scheduling.antt =====
-- A root agent with a budget for two children.
use general_agent_design.Common.{ℕ, ◌≡◌, refl, true, false, none, some, [], ◌∷◌, arith}
use general_agent_design.Common.Dict.{lookup, insert, total}
use general_agent_design.Domain.Errors.{Result, ok, err, RunError}
use general_agent_design.Runtime.Budgets.{
  RunLimits, BudgetLease, RunBudgetManager, new_budget, reserve_child, release_lease, release_child,
}
use general_agent_design.Runtime.Budgets.Accounting.{Balances}
use general_agent_design.Subagents.Types.{
  queued, AgentDefinition, SubagentResult, DelegationRequest,
}
use general_agent_design.Subagents.Scheduler.{
  SchedulerConfig, Scheduler, StatusView, new_scheduler, get, status_of, find_agent, spawn,
  cancel_all, cancel,
}
use general_agent_design.Subagents.Scheduler.Child.{finish}
use general_agent_design.Subagents.Scheduler.Steps.{spawns, initial, after}
use general_agent_design.Subagents.Scheduler.Invariant.{IsSound}
use general_agent_design.Subagents.Scheduler.Preservation.{Reach-IsSound}
use general_agent_design.Subagents.Scheduler.Shutdown.{rests, cancel_all-rests}

abbrev limits_of : ℕ → RunLimits
limits_of n = record {
  max_iterations = n;
  max_model_calls = n;
  max_tool_calls = n;
  max_wall_time_seconds = n;
}

abbrev reader : AgentDefinition
reader = record {
  name = "reader";
  limits = limits_of 3;
  can_spawn_subagents = false;
  max_depth = 1;
}

abbrev config : SchedulerConfig
config = record {
  max_concurrent = 1;
  max_total = 4;
  max_depth = 1;
  max_followup_message_chars = 100;
  max_turns_per_thread = 2;
  registry = ("reader", reader) ∷ [];
}

abbrev request : DelegationRequest
request = record { agent_name = "reader"; task = "look"; idempotency_key = some "k" }

abbrev idle_root : Scheduler
idle_root = new_scheduler config (limits_of 6)

abbrev busy : Scheduler
busy = (spawn config request "a" idle_root).1

abbrev lease : BudgetLease
lease = record { model_calls = 3; tool_calls = 3; released = false }

abbrev budget : RunBudgetManager
budget = new_budget (limits_of 6)

abbrev one_child : RunBudgetManager
one_child = record budget {
  reserved_model_calls = 3;
  reserved_tool_calls = 3;
  leases = ("a", lease) ∷ [];
}

abbrev no_error : RunError
no_error = record { code = ""; message = ""; category = ""; recoverable = false }

abbrev done_well : SubagentResult
done_well = record { agent_id = "a"; agent_name = "reader"; summary = "ok" }

abbrev view_of_child : Result StatusView
view_of_child = (spawn config request "a" idle_root).0

abbrev seen : Result StatusView → StatusView
seen (ok v) = v
seen (err x) = record {
  agent_id = "";
  agent_name = "";
  status = queued;
  task = "";
  turn_count = 0;
  has_result = false;
  error = none;
}

reserves : reserve_child budget "a" (limits_of 3) ≡ ok one_child
unfolding reserve_child new_budget new_scheduler lookup insert get status_of find_agent spawn total
    release_child release_lease cancel finish
reserves = refl

one_child-Balances : Balances one_child
unfolding reserve_child new_budget new_scheduler lookup insert get status_of find_agent spawn total
    release_child release_lease cancel finish
one_child-Balances = record {
  model_sum = refl;
  tool_sum = refl;
  model_limit = omega arith;
  tool_limit = omega arith;
}

Reach-IsSound_example : IsSound config busy
unfolding reserve_child new_budget new_scheduler lookup insert get status_of find_agent spawn total
    release_child release_lease cancel finish
Reach-IsSound_example =
    Reach-IsSound {limits = limits_of 6} (after initial (spawns request "a" idle_root refl))

cancel_all-rests_example : rests (lookup "a" (cancel_all busy).threads) ≡ true
cancel_all-rests_example = cancel_all-rests "a" busy
