-- ===== src/Subagents/Scheduler/Preservation/Turns.antt =====
-- The awaits of _run_child, cancel and send_message (runtime/subagents/scheduler.py) and the invariant.
use Prim.Native.String.{count}
use general_agent_design.Common.{
  ◌+◌, ◌<◌, String, ◌≡◌, refl, inl, inr, Bool, true, false, Bool-cases, Option, none, some, [], ltb,
  leb, eqb, eq_iff, arith, if◌then◌else◌,
}
use general_agent_design.Common.Dict.{lookup, lookup-insert, total-insert, weight_of-le-total}
use general_agent_design.Domain.Errors.{RunError}
use general_agent_design.Runtime.Budgets.{RunBudgetManager}
use general_agent_design.Runtime.Budgets.Accounting.{Balances, release_child-Balances}
use general_agent_design.Subagents.Types.{
  running, cancelling, AgentThreadState, is_settled, is_over,
}
use general_agent_design.Subagents.Scheduler.{
  TaskState, fresh, waiting, inside, done, SchedulerConfig, Scheduler, is_idle, send_to,
  mark_cancelled, unwind, cancel_thread, put_thread, put_task, leave,
}
use general_agent_design.Subagents.Scheduler.Child.{
  ChildOutcome, completed, crashed, unfinished, enter, start, drain_mailbox, finish,
}
use general_agent_design.Subagents.Scheduler.Invariant.{
  is_inside, IsSound, lookup-release_child, put_thread-IsSound, update-IsSound,
}

-- Both branches of a test are sound.
pub either-IsSound {ℓ} :
    {A : Type ℓ} (c : SchedulerConfig) (b : Bool) (x y : A × Scheduler)
    → (b ≡ true → IsSound c x.1)
    → (b ≡ false → IsSound c y.1)
    → IsSound c (if b then x else y).1
either-IsSound c true x y l r = l refl
either-IsSound c false x y l r = r refl

module _ (c : SchedulerConfig) (s : Scheduler) (v : IsSound c s) (i : String) (t : AgentThreadState)
    (et : lookup i s.threads ≡ some t) where
  pub enter-IsSound :
      (k : TaskState)
      → lookup i s.tasks ≡ some k
      → is_inside k ≡ 0
      → 0 < s.permits
      → IsSound c (enter i t s)
  unfolding enter
  enter-IsSound k ek z p =
      update-IsSound c s v i t (record t { status = running; turn_count = t.turn_count + 1 }) et
        inside _ refl refl refl (ground arith) (omega arith) (omega (arith, v)) v.balanced
        (λ j n q. q)

  pub start-IsSound : lookup i s.tasks ≡ some fresh → IsSound c (start i t s)
  unfolding start
  start-IsSound ek = elim (Bool-cases (eqb s.permits 0)) [
    | inl none_left ↦ rw (none_left) (record {
      bounded = v.bounded;
      counted = ground (arith, total-insert is_inside i waiting s.tasks);
      permitted = v.permitted;
      observed = v.observed;
      balanced = v.balanced;
      agrees = λ j.
          ground (arith, eq_iff i j, lookup-insert i j waiting s.tasks, v.agrees j, v.agrees i);
      leased = v.leased;
    })
    | inr some_left ↦ rw (some_left) (enter-IsSound fresh ek refl (ground arith))
  ]

  pub drain_mailbox-IsSound : IsSound c (drain_mailbox i t s).1
  unfolding drain_mailbox
  drain_mailbox-IsSound =
      put_thread-IsSound c s v i t (record t { mailbox = [] }) et (ground (arith, v.agrees i))

  -- The end of a task that is inside, with a budget that went through releases.
  leave-IsSound :
      (t' : AgentThreadState) (b : RunBudgetManager)
      → lookup i s.tasks ≡ some inside
      → is_settled t'.status ≡ true
      → Balances b
      → ((j : String) → lookup j s.budget.leases ≡ none → lookup j b.leases ≡ none)
      → IsSound c (put_task i done (leave (put_thread i t' (record s { budget = b }))))
  leave-IsSound t' b ek f bal kept =
      update-IsSound c s v i t t' et done _ refl refl f
        (ground (arith, weight_of-le-total is_inside i s.tasks, v.counted))
        (ground (arith, weight_of-le-total is_inside i s.tasks, v.counted)) v.observed bal
        (λ j n. kept j)

  pub finish-IsSound :
      (outcome : ChildOutcome) (e : RunError)
      → lookup i s.tasks ≡ some inside
      → IsSound c (finish i outcome e t s)
  unfolding finish
  finish-IsSound (completed r true m n) e ek =
      leave-IsSound _ _ ek refl
        (release_child-Balances _ i 0 0 (release_child-Balances s.budget i m n v.balanced))
        (λ j q. lookup-release_child _ i j 0 0 (lookup-release_child s.budget i j m n q))
  finish-IsSound (completed r false m n) e ek =
      leave-IsSound _ _ ek refl (release_child-Balances s.budget i 0 0 v.balanced)
        (λ j q. lookup-release_child s.budget i j 0 0 q)
  finish-IsSound (crashed x) e ek =
      leave-IsSound _ _ ek refl (release_child-Balances s.budget i 0 0 v.balanced)
        (λ j q. lookup-release_child s.budget i j 0 0 q)
  finish-IsSound (unfinished x m n) e ek =
      leave-IsSound _ _ ek refl
        (release_child-Balances _ i 0 0 (release_child-Balances s.budget i m n v.balanced))
        (λ j q. lookup-release_child _ i j 0 0 (lookup-release_child s.budget i j m n q))

  unwind-IsSound :
      (o : Option TaskState) (t' : AgentThreadState)
      → lookup i s.tasks ≡ o
      → is_settled t'.status ≡ true
      → IsSound c (put_thread i t' (unwind i o s))
  unfolding unwind
  unwind-IsSound none t' ek f = put_thread-IsSound c s v i t t' et (ground (arith))
  unwind-IsSound (some done) t' ek f = put_thread-IsSound c s v i t t' et (ground (arith))
  unwind-IsSound (some fresh) t' ek f =
      update-IsSound c s v i t t' et done _ refl refl f (ground arith) refl v.observed v.balanced
        (λ j n q. q)
  unwind-IsSound (some waiting) t' ek f =
      update-IsSound c s v i t t' et done _ refl refl f (ground arith) refl v.observed
        (release_child-Balances s.budget i 0 0 v.balanced)
        (λ j n q. lookup-release_child s.budget i j 0 0 q)
  unwind-IsSound (some inside) t' ek f =
      leave-IsSound t' _ ek f (release_child-Balances s.budget i 0 0 v.balanced)
        (λ j q. lookup-release_child s.budget i j 0 0 q)

  pub cancel_thread-IsSound : IsSound c (cancel_thread i t s)
  unfolding cancel_thread
  cancel_thread-IsSound = elim (Bool-cases (is_over t.status)) [
    | inl over ↦ rw over v
    | inr active ↦ rw active (
        unwind-IsSound (lookup i s.tasks) (mark_cancelled (record t { status = cancelling })) refl
          refl)
  ]

  pub send_to-IsSound : (message : String) → IsSound c (send_to c i message t s).1
  unfolding send_to
  send_to-IsSound message =
      either-IsSound c (is_over t.status) _ _ (λ _. v)
        λ live.
          either-IsSound c (ltb c.max_followup_message_chars (count message)) _ _ (λ _. v)
            λ _.
              either-IsSound c (leb c.max_turns_per_thread t.turn_count) _ _ (λ _. v)
                λ _.
                  either-IsSound c (is_idle t.status) _ _
                    (λ rested.
                      update-IsSound c s v i t _ et fresh _ refl refl refl
                        (ground (arith, v.agrees i)) refl v.observed v.balanced (λ j n q. q))
                    (λ busy. put_thread-IsSound c s v i t _ et (ground (arith, v.agrees i)))
