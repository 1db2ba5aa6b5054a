-- ===== src/Subagents/Scheduler/Leases.antt =====
-- The leases of child agents in spawn, cancel and _run_child (runtime/subagents/scheduler.py).
use general_agent_design.Common.{
  ℕ, String, ◌≡◌, inl, inr, true, false, none, some, ◌==◌, eq_refl, arith,
}
use general_agent_design.Common.Dict.{lookup, insert, lookup-insert}
use general_agent_design.Domain.Errors.{RunError, Result-cases, ok}
use general_agent_design.Runtime.Budgets.{
  BudgetLease, RunBudgetManager, release_child, release_lease,
}
use general_agent_design.Runtime.Budgets.Accounting.{release_child_twice}
use general_agent_design.Subagents.Types.{queued, AgentThreadState, DelegationRequest}
use general_agent_design.Subagents.Scheduler.{
  SchedulerConfig, Scheduler, StatusView, new_thread, known_key, find_agent, status_of, get, spawn,
}
use general_agent_design.Subagents.Scheduler.Child.{
  ChildOutcome, completed, crashed, unfinished, reported, finish,
}

-- Usage that a child reports once its lease is released, as in every turn after its first, is counted
-- nowhere.
budget-finish_released :
    (s : Scheduler) (i : String) (t : AgentThreadState) (outcome : ChildOutcome) (e : RunError)
    (l : BudgetLease)
    → lookup i s.budget.leases ≡ some l
    → l.released ≡ true
    → (finish i outcome e t s).budget ≡ s.budget
unfolding finish release_child
budget-finish_released s i t outcome e l el r = ground arith

release_child-open :
    (b : RunBudgetManager) (i : String) (l : BudgetLease) (models tools : ℕ)
    → lookup i b.leases ≡ some l
    → l.released ≡ false
    → release_child b i models tools ≡ release_lease b i l models tools
unfolding release_child
release_child-open b i l models tools e r = ground arith

-- A turn that ends gives the whole lease back and counts what it reports, once.
pub budget-finish :
    (s : Scheduler) (i : String) (t : AgentThreadState) (outcome : ChildOutcome) (e : RunError)
    (l : BudgetLease) (models tools : ℕ)
    → lookup i s.budget.leases ≡ some l
    → l.released ≡ false
    → reported outcome ≡ some (models, tools)
    → (finish i outcome e t s).budget ≡ release_lease s.budget i l models tools
unfolding finish
budget-finish s i t (completed x true m n) e l models tools el r q = ground (
  arith,
  release_child_twice s.budget i models tools 0 0,
  release_child-open s.budget i l models tools el r,
)
budget-finish s i t (completed x false m n) e l models tools el r q = cc
budget-finish s i t (crashed x) e l models tools el r q = cc
budget-finish s i t (unfinished x m n) e l models tools el r q = ground (
  arith,
  release_child_twice s.budget i models tools 0 0,
  release_child-open s.budget i l models tools el r,
)

-- A second spawn under a key that was used makes nothing: it reports the child of the first.
pub spawn_again :
    (c : SchedulerConfig) (first second : DelegationRequest) (key i j : String) (s : Scheduler)
    (w : StatusView)
    → first.idempotency_key ≡ some key
    → second.idempotency_key ≡ some key
    → (key == "") ≡ false
    → known_key (some key) s.idempotency ≡ none
    → (spawn c first i s).0 ≡ ok w
    → spawn c second j (spawn c first i s).1 ≡ (ok w, (spawn c first i s).1)
unfolding spawn status_of get
spawn_again c first second key i j s w f g n k e =
    elim (Result-cases (find_agent c first.agent_name)) [
      | inl (d, fd) ↦ ground (
        arith,
        eq_refl i,
        eq_refl key,
        lookup-insert key key i s.idempotency,
        lookup-insert i i (record (new_thread d first) { status = queued })
            (insert i (new_thread d first) s.threads),
      )
      | inr (x, fx) ↦ absurd (ground arith)
    ]
