-- ===== src/Subagents/Scheduler/Preservation.antt =====
-- The steps of SubagentScheduler (runtime/subagents/scheduler.py) and the invariant.
mod Turns
use Prim.Native.String.{count}
use general_agent_design.Common.{
  ℕ, zero, suc, ◌+◌, ◌-◌, ◌≤◌, ◌<◌, String, ◌≡◌, ◌≢◌, refl, inl, inr, Bool, true, false, not, ◌&&◌,
  Bool-cases, Option-cases, Option, none, some, List, [], ◌∷◌, length, ltb, leb, eqb, is_some, ◌==◌,
  eq_iff, eq_refl, arith, if◌then◌else◌,
}
use general_agent_design.Common.Dict.{
  Dict, lookup, insert, has, total, weight_of, lookup-insert, length-insert, total-insert,
  weight_of-le-total,
}
use general_agent_design.Domain.Errors.{RunError, Result, Result-cases, ok, err}
use general_agent_design.Runtime.Budgets.{
  RunLimits, RunBudgetManager, new_budget, reserve_child, release_child, release_lease,
}
use general_agent_design.Runtime.Budgets.Accounting.{
  Balances, new_budget-Balances, reserve_child-Balances, release_child-Balances,
}
use general_agent_design.Subagents.Types.{
  AgentThreadStatus, created, queued, running, idle, cancelling, cancelled, failed, closed,
  AgentDefinition, AgentThreadState, DelegationRequest, is_active, is_settled, is_over,
}
use general_agent_design.Subagents.Scheduler.{
  TaskState, fresh, waiting, inside, done, SchedulerConfig, Scheduler, new_scheduler, new_thread,
  reserved, create, known_key, find_agent, spawn, is_idle, send_to, mark_closed, send_message,
  mark_cancelled, unwind, cancel_thread, cancel, close_thread, close, put_thread, put_task, leave,
}
use general_agent_design.Subagents.Scheduler.Child.{
  ChildOutcome, completed, crashed, unfinished, enter, start, drain_mailbox, ended, reported,
  report, finish,
}
use general_agent_design.Subagents.Scheduler.Steps.{
  Step, spawns, sends, cancels, closes, starts, acquires, drains, finishes, Reach, initial, after,
}
use general_agent_design.Subagents.Scheduler.Invariant.{
  is_inside, fits, IsSound, lookup-release_child, new_thread-IsSound, lookup-reserve_child,
  new_scheduler-IsSound, put_thread-IsSound, update-IsSound,
}
use Turns.{
  either-IsSound, enter-IsSound, start-IsSound, drain_mailbox-IsSound, finish-IsSound,
  cancel_thread-IsSound, send_to-IsSound,
}

mark_closed-IsSound :
    (c : SchedulerConfig) (s : Scheduler) (i : String) (o : Option AgentThreadState)
    → IsSound c s
    → lookup i s.threads ≡ o
    → ((t : AgentThreadState) → o ≡ some t → is_active t.status ≡ false)
    → IsSound c (mark_closed i o s)
mark_closed-IsSound c s i none v e a = v
mark_closed-IsSound c s i (some t) v e a =
    put_thread-IsSound c s v i t (record t { status = closed }) e
      (ground (arith, v.agrees i, a t refl))

-- After cancel_thread the thread is not active any more.
cancel_thread-inactive :
    (s : Scheduler) (i : String) (t u : AgentThreadState)
    → lookup i s.threads ≡ some t
    → lookup i (cancel_thread i t s).threads ≡ some u
    → is_active u.status ≡ false
unfolding cancel_thread mark_cancelled
cancel_thread-inactive s i t u et eu = ground (
  arith,
  eq_refl i,
  lookup-insert i i (mark_cancelled (record t { status = cancelling }))
      (unwind i (lookup i s.tasks) s).threads,
)

module _ (c : SchedulerConfig) (s : Scheduler) (v : IsSound c s) (i : String) where
  cancel-IsSound : IsSound c (cancel i s).1
  unfolding cancel
  cancel-IsSound = elim (Option-cases (lookup i s.threads)) [
    | inl e ↦ rw (e, cancel) v
    | inr (t, e) ↦ rw (e, cancel) (cancel_thread-IsSound c s v i t e)
  ]

  send_message-IsSound : (message : String) → IsSound c (send_message c i message s).1
  unfolding send_message
  send_message-IsSound message = elim (Option-cases (lookup i s.threads)) [
    | inl e ↦ rw (e, send_message) v
    | inr (t, e) ↦ rw (e, send_message) (send_to-IsSound c s v i t e message)
  ]

  close_thread-IsSound :
      (force : Bool) (t : AgentThreadState)
      → lookup i s.threads ≡ some t
      → IsSound c (close_thread i force t s).1
  unfolding close_thread
  close_thread-IsSound force t e =
      either-IsSound c (is_active t.status && not force) _ _ (λ _. v)
        λ allowed. elim (Bool-cases (force && is_active t.status)) [
          | inl forced ↦ rw forced (
              mark_closed-IsSound c (cancel_thread i t s) i _ (cancel_thread-IsSound c s v i t e)
                refl (λ u eu. cancel_thread-inactive s i t u e eu))
          | inr rest ↦ rw rest (mark_closed-IsSound c s i _ v refl (λ u eu. ground arith))
        ]

  close-IsSound : (force : Bool) → IsSound c (close i force s).1
  unfolding close
  close-IsSound force = elim (Option-cases (lookup i s.threads)) [
    | inl e ↦ rw (e, close) v
    | inr (t, e) ↦ rw (e, close) (close_thread-IsSound force t e)
  ]

  reserved-IsSound :
      (definition : AgentDefinition) (request : DelegationRequest) (r : Result RunBudgetManager)
      → lookup i s.threads ≡ none
      → length s.threads < c.max_total
      → reserve_child s.budget i definition.limits ≡ r
      → IsSound c
          (reserved definition request i r (put_thread i (new_thread definition request) s)).1
  reserved-IsSound definition request (err x) e l er =
      new_thread-IsSound c s i (new_thread definition request) v e l refl
  reserved-IsSound definition request (ok b) e l er =
      update-IsSound c (put_thread i (new_thread definition request) s)
        (new_thread-IsSound c s i (new_thread definition request) v e l refl) i
        (new_thread definition request) (record (new_thread definition request) { status = queued })
        (ground (arith, eq_refl i, lookup-insert i i (new_thread definition request) s.threads))
        fresh _ refl refl refl (ground (arith, v.agrees i)) refl v.observed
        (reserve_child-Balances s.budget b i definition.limits v.balanced
          (ground (arith, v.leased i)) (ground (arith, v.leased i)) er)
        (λ j n q. lookup-reserve_child s.budget b i j definition.limits er n q)

  create-IsSound :
      (request : DelegationRequest) (r : Result AgentDefinition)
      → lookup i s.threads ≡ none
      → length s.threads < c.max_total
      → IsSound c (create c request i r s).1
  create-IsSound request (err x) e l = v
  create-IsSound request (ok d) e l =
      either-IsSound c d.can_spawn_subagents _ _ (λ _. v)
        λ _.
          either-IsSound c (ltb c.max_depth d.max_depth) _ _ (λ _. v)
            λ _. reserved-IsSound d request (reserve_child s.budget i d.limits) e l refl

  spawn-IsSound :
      (request : DelegationRequest) → lookup i s.threads ≡ none → IsSound c (spawn c request i s).1
  unfolding spawn
  spawn-IsSound request e = elim (Option-cases (known_key request.idempotency_key s.idempotency)) [
    | inr (known, k) ↦ rw (k, spawn) v
    | inl k ↦
        rw (k, spawn)
          (either-IsSound c (leb c.max_total (length s.threads)) _ _ (λ _. v)
            (λ room. create-IsSound request (find_agent c request.agent_name) e (ground arith)))
  ]

-- Whatever the root agent calls and however the child tasks interleave, one step keeps the scheduler
-- sound.
pub Step-IsSound : {c : SchedulerConfig} {s t : Scheduler} → Step c s t → IsSound c s → IsSound c t
Step-IsSound {c} (spawns request i s e) v = spawn-IsSound c s v i request e
Step-IsSound {c} (sends i message s) v = send_message-IsSound c s v i message
Step-IsSound {c} (cancels i s) v = cancel-IsSound c s v i
Step-IsSound {c} (closes i force s) v = close-IsSound c s v i force
Step-IsSound {c} (starts i t s et ek) v = start-IsSound c s v i t et ek
Step-IsSound {c} (acquires i t s et ek p) v = enter-IsSound c s v i t et waiting ek refl p
Step-IsSound {c} (drains i t s et ek) v = drain_mailbox-IsSound c s v i t et
Step-IsSound {c} (finishes i outcome e t s et ek) v = finish-IsSound c s v i t et outcome e ek

-- In every reachable state there are at most `max_total` threads; the running count is the number of
-- tasks inside the semaphore and with the free permits makes up `max_concurrent`, which the observed
-- maximum does not pass; what the budget holds reserved is what its open leases hold, within the
-- limits; and each thread's status fits its task.
pub Reach-IsSound :
    {c : SchedulerConfig} {limits : RunLimits} {s : Scheduler} → Reach c limits s → IsSound c s
Reach-IsSound {c} {limits} initial = new_scheduler-IsSound c limits
Reach-IsSound (after r st) = Step-IsSound st (Reach-IsSound r)
