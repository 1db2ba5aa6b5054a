-- ===== src/Runtime/Budgets.antt =====
-- agent-harness/src/agent_harness/runtime/budgets.py, with RunLimits of
-- agent-harness/src/agent_harness/domain/run.py. The integers are natural numbers, so the
-- subtractions of a release stop at 0.
pub mod Accounting
use general_agent_design.Common.{
  ℕ, ◌+◌, ◌-◌, String, Bool, true, false, Option, none, some, [], ltb, leb, if◌then◌else◌,
}
use general_agent_design.Common.Dict.{Dict, lookup, insert}
use general_agent_design.Domain.Errors.{Result, ok, err, fail, budget_exceeded}

pub record RunLimits : Type 0 where
  pub max_iterations : ℕ
  pub max_model_calls : ℕ
  pub max_tool_calls : ℕ
  pub max_wall_time_seconds : ℕ

-- The elapsed seconds, rounded up to a whole number, against the limit.
unfoldable pub check_wall_time : ℕ → RunLimits → Result (Unit {0})
check_wall_time elapsed limits =
    if ltb limits.max_wall_time_seconds elapsed
    then fail budget_exceeded "Max wall time exceeded"
    else ok tt

unfoldable pub check_iteration : ℕ → RunLimits → Result (Unit {0})
check_iteration iteration limits =
    if leb limits.max_iterations iteration
    then fail budget_exceeded "Max iterations exceeded"
    else ok tt

unfoldable pub check_model_calls : ℕ → RunLimits → Result (Unit {0})
check_model_calls model_call_count limits =
    if leb limits.max_model_calls model_call_count
    then fail budget_exceeded "Max model calls exceeded"
    else ok tt

unfoldable pub check_tool_calls : ℕ → RunLimits → Result (Unit {0})
check_tool_calls tool_call_count limits =
    if leb limits.max_tool_calls tool_call_count
    then fail budget_exceeded "Max tool calls exceeded"
    else ok tt

pub record BudgetLease : Type 0 where
  pub model_calls : ℕ
  pub tool_calls : ℕ
  pub released : Bool

pub record RunBudgetManager : Type 0 where
  pub global_limits : RunLimits
  pub reserved_model_calls : ℕ
  pub reserved_tool_calls : ℕ
  pub used_child_model_calls : ℕ
  pub used_child_tool_calls : ℕ
  pub leases : Dict BudgetLease

unfoldable pub new_budget : RunLimits → RunBudgetManager
new_budget limits = record {
  global_limits = limits;
  reserved_model_calls = 0;
  reserved_tool_calls = 0;
  used_child_model_calls = 0;
  used_child_tool_calls = 0;
  leases = [];
}

unfoldable pub reserve_child : RunBudgetManager → String → RunLimits → Result RunBudgetManager
reserve_child b agent_id local =
    let next_model = b.reserved_model_calls + local.max_model_calls in
    let next_tools = b.reserved_tool_calls + local.max_tool_calls in
    if ltb b.global_limits.max_model_calls next_model
    then fail budget_exceeded "Child model-call budget exceeds root budget"
    else if ltb b.global_limits.max_tool_calls next_tools
    then fail budget_exceeded "Child tool-call budget exceeds root budget"
    else ok (record b {
      reserved_model_calls = next_model;
      reserved_tool_calls = next_tools;
      leases =
          insert agent_id
            (record {
              model_calls = local.max_model_calls;
              tool_calls = local.max_tool_calls;
              released = false;
            })
            b.leases;
    })

-- The rest of release_child, for a lease that is not released.
unfoldable pub release_lease : RunBudgetManager → String → BudgetLease → ℕ → ℕ → RunBudgetManager
release_lease b agent_id lease used_model_calls used_tool_calls = record b {
  reserved_model_calls = b.reserved_model_calls - lease.model_calls;
  reserved_tool_calls = b.reserved_tool_calls - lease.tool_calls;
  used_child_model_calls = b.used_child_model_calls + used_model_calls;
  used_child_tool_calls = b.used_child_tool_calls + used_tool_calls;
  leases = insert agent_id (record lease { released = true }) b.leases;
}

unfoldable pub release_child : RunBudgetManager → String → ℕ → ℕ → RunBudgetManager
release_child b agent_id used_model_calls used_tool_calls = elim (lookup agent_id b.leases) [
  | none ↦ b
  | some lease ↦
      if lease.released then b else release_lease b agent_id lease used_model_calls used_tool_calls
]
