-- ===== src/Runtime/Budgets/Accounting.antt =====
-- The accounts of RunBudgetManager (runtime/budgets.py).
use general_agent_design.Common.{
  ℕ, ◌+◌, ◌≤◌, String, ◌≡◌, refl, inl, inr, true, false, Option-cases, some, eq_refl, arith,
  if◌then◌else◌,
}
use general_agent_design.Common.Dict.{
  lookup, total, weight_of, lookup-insert, total-insert, weight_of-le-total,
}
use general_agent_design.Domain.Errors.{ok}
use general_agent_design.Runtime.Budgets.{
  RunLimits, BudgetLease, RunBudgetManager, new_budget, reserve_child, release_lease, release_child,
}

-- What a lease holds back: nothing once it is released.
abbrev pub held_model : BudgetLease → ℕ
held_model l = if l.released then 0 else l.model_calls

abbrev pub held_tools : BudgetLease → ℕ
held_tools l = if l.released then 0 else l.tool_calls

-- What is reserved is what the open leases hold, and stays within the run's limits.
pub record Balances (b : RunBudgetManager) : Type 0 where
  pub model_sum : b.reserved_model_calls ≡ total held_model b.leases
  pub tool_sum : b.reserved_tool_calls ≡ total held_tools b.leases
  pub model_limit : b.reserved_model_calls ≤ b.global_limits.max_model_calls
  pub tool_limit : b.reserved_tool_calls ≤ b.global_limits.max_tool_calls

pub new_budget-Balances : (limits : RunLimits) → Balances (new_budget limits)
unfolding new_budget total
new_budget-Balances limits = record {
  model_sum = refl;
  tool_sum = refl;
  model_limit = omega arith;
  tool_limit = omega arith;
}

-- An agent that holds no open lease reserves its limits or is refused; the accounts balance after it.
pub reserve_child-Balances :
    (b c : RunBudgetManager) (agent_id : String) (limits : RunLimits)
    → Balances b
    → weight_of held_model (lookup agent_id b.leases) ≡ 0
    → weight_of held_tools (lookup agent_id b.leases) ≡ 0
    → reserve_child b agent_id limits ≡ ok c
    → Balances c
unfolding reserve_child
reserve_child-Balances b c agent_id limits v m t e = ground (
  arith,
  total-insert held_model agent_id
      (record {
        model_calls = limits.max_model_calls;
        tool_calls = limits.max_tool_calls;
        released = false;
      })
      b.leases,
  total-insert held_tools agent_id
      (record {
        model_calls = limits.max_model_calls;
        tool_calls = limits.max_tool_calls;
        released = false;
      })
      b.leases,
)

-- Releasing keeps the balance, whatever usage is reported.
pub release_child-Balances :
    (b : RunBudgetManager) (agent_id : String) (models tools : ℕ)
    → Balances b
    → Balances (release_child b agent_id models tools)
unfolding release_child release_lease
release_child-Balances b agent_id models tools v = elim (Option-cases (lookup agent_id b.leases)) [
  | inl e ↦ rw (e, release_child) v
  | inr (l, e) ↦ ground (
    arith,
    total-insert held_model agent_id (record l { released = true }) b.leases,
    total-insert held_tools agent_id (record l { released = true }) b.leases,
  )
]

-- With balanced accounts the two subtractions of a release are exact: what an open lease holds is
-- reserved.
pub release_exact :
    (b : RunBudgetManager) (agent_id : String) (models tools : ℕ) (l : BudgetLease)
    → Balances b
    → lookup agent_id b.leases ≡ some l
    → l.released ≡ false
    → ((release_child b agent_id models tools).reserved_model_calls + l.model_calls
        ≡ b.reserved_model_calls)
      × ((release_child b agent_id models tools).reserved_tool_calls + l.tool_calls
          ≡ b.reserved_tool_calls)
      × ((release_child b agent_id models tools).used_child_model_calls
          ≡ b.used_child_model_calls + models)
      × ((release_child b agent_id models tools).used_child_tool_calls
          ≡ b.used_child_tool_calls + tools)
unfolding release_child release_lease
release_exact b agent_id models tools l v e r = ground (
  arith,
  weight_of-le-total held_model agent_id b.leases,
  weight_of-le-total held_tools agent_id b.leases,
)

-- A second release of one lease changes nothing: whatever usage it reports is not counted.
pub release_child_twice :
    (b : RunBudgetManager) (agent_id : String) (models tools more_models more_tools : ℕ)
    → release_child (release_child b agent_id models tools) agent_id more_models more_tools
      ≡ release_child b agent_id models tools
unfolding release_child release_lease
release_child_twice b agent_id models tools more_models more_tools =
    elim (Option-cases (lookup agent_id b.leases)) [
      | inl e ↦ ground arith
      | inr (l, e) ↦ ground (
        arith,
        eq_refl agent_id,
        lookup-insert agent_id agent_id (record l { released = true }) b.leases,
      )
    ]
