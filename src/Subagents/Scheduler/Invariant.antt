-- ===== src/Subagents/Scheduler/Invariant.antt =====
-- The well-formed states of SubagentScheduler (runtime/subagents/scheduler.py).
use general_agent_design.Common.{
  ℕ, ◌+◌, ◌≤◌, ◌<◌, String, ◌≡◌, refl, inl, inr, Bool, true, false, Option-cases, Option, none,
  some, length, ◌==◌, eq_iff, arith,
}
use general_agent_design.Common.Dict.{
  lookup, insert, total, weight_of, lookup-insert, length-insert, total-insert,
}
use general_agent_design.Domain.Errors.{ok}
use general_agent_design.Runtime.Budgets.{
  RunLimits, RunBudgetManager, new_budget, reserve_child, release_child, release_lease,
}
use general_agent_design.Runtime.Budgets.Accounting.{Balances, new_budget-Balances}
use general_agent_design.Subagents.Types.{
  AgentThreadStatus, created, queued, running, AgentThreadState, is_settled,
}
use general_agent_design.Subagents.Scheduler.{
  TaskState, fresh, waiting, inside, done, SchedulerConfig, Scheduler, new_scheduler, put_thread,
}

abbrev pub is_inside : TaskState → ℕ
is_inside inside = 1
is_inside _ = 0

abbrev pub is_queued : AgentThreadStatus → Bool
is_queued queued = true
is_queued _ = false

abbrev pub is_running : AgentThreadStatus → Bool
is_running running = true
is_running _ = false

-- A thread without a task: refused by the budget, or ended since.
abbrev pub is_orphan : AgentThreadStatus → Bool
is_orphan created = true
is_orphan s = is_settled s

-- Which status goes with which task.
abbrev pub fits : Option TaskState → Option AgentThreadState → Bool
fits none none = true
fits none (some t) = is_orphan t.status
fits (some k) none = false
fits (some fresh) (some t) = is_queued t.status
fits (some waiting) (some t) = is_queued t.status
fits (some inside) (some t) = is_running t.status
fits (some done) (some t) = is_settled t.status

pub record IsSound (c : SchedulerConfig) (s : Scheduler) : Type 0 where
  pub bounded : length s.threads ≤ c.max_total
  pub counted : s.running_count ≡ total is_inside s.tasks
  pub permitted : s.permits + s.running_count ≡ c.max_concurrent
  pub observed : s.max_concurrent_observed ≤ c.max_concurrent
  pub balanced : Balances s.budget
  pub agrees : (j : String) → fits (lookup j s.tasks) (lookup j s.threads) ≡ true
  pub leased : (j : String) → lookup j s.threads ≡ none → lookup j s.budget.leases ≡ none

-- A release makes no lease.
pub lookup-release_child :
    (b : RunBudgetManager) (i j : String) (models tools : ℕ)
    → lookup j b.leases ≡ none
    → lookup j (release_child b i models tools).leases ≡ none
unfolding release_child release_lease
lookup-release_child b i j models tools n = elim (Option-cases (lookup i b.leases)) [
  | inl e ↦ rw (e, release_child) n
  | inr (l, e) ↦
      ground (arith, eq_iff i j, lookup-insert i j (record l { released = true }) b.leases)
]

pub new_scheduler-IsSound :
    (c : SchedulerConfig) (limits : RunLimits) → IsSound c (new_scheduler c limits)
unfolding new_scheduler lookup total new_budget
new_scheduler-IsSound c limits = record {
  bounded = omega arith;
  counted = refl;
  permitted = omega arith;
  observed = omega arith;
  balanced = new_budget-Balances limits;
  agrees = λ j. refl;
  leased = λ j n. refl;
}

module _ (c : SchedulerConfig) (s : Scheduler) (v : IsSound c s) (i : String)
    (t t' : AgentThreadState) (et : lookup i s.threads ≡ some t) where
  -- One thread changes, and its task agrees with the change.
  pub put_thread-IsSound : fits (lookup i s.tasks) (some t') ≡ true → IsSound c (put_thread i t' s)
  put_thread-IsSound f = record {
    bounded = ground (arith, length-insert i t' s.threads);
    counted = v.counted;
    permitted = v.permitted;
    observed = v.observed;
    balanced = v.balanced;
    agrees = λ j. ground (arith, eq_iff i j, lookup-insert i j t' s.threads, v.agrees j);
    leased = λ j. ground (arith, eq_iff i j, lookup-insert i j t' s.threads, v.leased j);
  }

  -- One thread and its task change together with the counters and the budget.
  pub update-IsSound :
      (k : TaskState) (u : Scheduler)
      → u.threads ≡ insert i t' s.threads
      → u.tasks ≡ insert i k s.tasks
      → fits (some k) (some t') ≡ true
      → u.running_count + weight_of is_inside (lookup i s.tasks) ≡ s.running_count + is_inside k
      → u.permits + u.running_count ≡ s.permits + s.running_count
      → u.max_concurrent_observed ≤ c.max_concurrent
      → Balances u.budget
      → ((j : String)
          → (i == j) ≡ false
          → lookup j s.budget.leases ≡ none
          → lookup j u.budget.leases ≡ none)
      → IsSound c u
  update-IsSound k u et' ek f n p o b kept = record {
    bounded = ground (arith, length-insert i t' s.threads);
    counted = ground (arith, total-insert is_inside i k s.tasks);
    permitted = omega arith;
    observed = o;
    balanced = b;
    agrees = λ j. ground (
      arith,
      eq_iff i j,
      lookup-insert i j k s.tasks,
      lookup-insert i j t' s.threads,
      v.agrees j,
    );
    leased = λ j m.
        kept j (ground (arith, eq_iff i j, lookup-insert i j t' s.threads))
          (ground (arith, eq_iff i j, lookup-insert i j t' s.threads, v.leased j));
  }

-- A thread under a new id that waits for nothing.
pub new_thread-IsSound :
    (c : SchedulerConfig) (s : Scheduler) (i : String) (t : AgentThreadState)
    → IsSound c s
    → lookup i s.threads ≡ none
    → length s.threads < c.max_total
    → t.status ≡ created
    → IsSound c (put_thread i t s)
new_thread-IsSound c s i t v e l f = record {
  bounded = ground (arith, length-insert i t s.threads);
  counted = v.counted;
  permitted = v.permitted;
  observed = v.observed;
  balanced = v.balanced;
  agrees = λ j. ground (arith, eq_iff i j, lookup-insert i j t s.threads, v.agrees j, v.agrees i);
  leased = λ j. ground (arith, eq_iff i j, lookup-insert i j t s.threads, v.leased j);
}

-- A reservation makes a lease for its own agent only.
pub lookup-reserve_child :
    (b b' : RunBudgetManager) (i j : String) (limits : RunLimits)
    → reserve_child b i limits ≡ ok b'
    → (i == j) ≡ false
    → lookup j b.leases ≡ none
    → lookup j b'.leases ≡ none
unfolding reserve_child
lookup-reserve_child b b' i j limits e n q = ground (
  arith,
  lookup-insert i j
      (record {
        model_calls = limits.max_model_calls;
        tool_calls = limits.max_tool_calls;
        released = false;
      })
      b.leases,
)
