-- ===== src/Subagents/Scheduler/Shutdown.antt =====
-- cancel and cancel_all of SubagentScheduler (runtime/subagents/scheduler.py).
use general_agent_design.Common.{
  String, ◌≡◌, refl, ap, ◌∙◌, inl, inr, Bool, true, false, not, ◌||◌, Bool-cases, Option-cases,
  Option, none, some, List, [], ◌∷◌, contains, ◌==◌, eq_iff, eq_refl, arith,
}
use general_agent_design.Common.Dict.{Dict, lookup, lookup-insert}
use general_agent_design.Subagents.Types.{cancelling, AgentThreadState, is_active}
use general_agent_design.Subagents.Scheduler.{
  TaskState, fresh, waiting, inside, done, Scheduler, mark_cancelled, unwind, cancel_thread, cancel,
  active_agent_ids, cancel_each, cancel_all,
}

-- The thread under an id is not active; there may be none.
abbrev pub rests : Option AgentThreadState → Bool
rests none = true
rests (some t) = not (is_active t.status)

threads-unwind :
    (i : String) (o : Option TaskState) (s : Scheduler) → (unwind i o s).threads ≡ s.threads
unfolding unwind
threads-unwind i none s = refl
threads-unwind i (some done) s = refl
threads-unwind i (some fresh) s = refl
threads-unwind i (some waiting) s = refl
threads-unwind i (some inside) s = refl

cancel_thread-rests_self :
    (i : String) (t : AgentThreadState) (s : Scheduler)
    → lookup i s.threads ≡ some t
    → rests (lookup i (cancel_thread i t s).threads) ≡ true
unfolding cancel_thread mark_cancelled
cancel_thread-rests_self i t s e = ground (
  arith,
  eq_refl i,
  lookup-insert i i (mark_cancelled (record t { status = cancelling }))
      (unwind i (lookup i s.tasks) s).threads,
)

-- Another thread is left alone.
cancel_thread-other :
    (i j : String) (t : AgentThreadState) (s : Scheduler)
    → (i == j) ≡ false
    → lookup j (cancel_thread i t s).threads ≡ lookup j s.threads
unfolding cancel_thread
cancel_thread-other i j t s n = ground (
  arith,
  threads-unwind i (lookup i s.tasks) s,
  lookup-insert i j (mark_cancelled (record t { status = cancelling }))
      (unwind i (lookup i s.tasks) s).threads,
)

cancel-rests_self : (i : String) (s : Scheduler) → rests (lookup i (cancel i s).1.threads) ≡ true
unfolding cancel
cancel-rests_self i s = elim (Option-cases (lookup i s.threads)) [
  | inl e ↦ rw (e, cancel) (ap rests e)
  | inr (t, e) ↦ rw (e, cancel) (cancel_thread-rests_self i t s e)
]

cancel-rests :
    (i j : String) (s : Scheduler)
    → rests (lookup j s.threads) ≡ true
    → rests (lookup j (cancel i s).1.threads) ≡ true
unfolding cancel
cancel-rests i j s r = elim (Bool-cases (i == j)) [
  | inl q ↦ ground (arith, eq_iff i j, cancel-rests_self j s)
  | inr q ↦ elim (Option-cases (lookup i s.threads)) [
    | inl e ↦ rw (e, cancel) r
    | inr (t, e) ↦ rw (e, cancel) (ap rests (cancel_thread-other i j t s q) ∙ r)
  ]
]

cancel_each-rests :
    (ids : List String) (j : String) (s : Scheduler)
    → (contains j ids || rests (lookup j s.threads)) ≡ true
    → rests (lookup j (cancel_each ids s).threads) ≡ true
unfolding cancel_each
cancel_each-rests [] j s r = ground arith
cancel_each-rests (i ∷ ids) j s r =
    cancel_each-rests ids j (cancel i s).1
      (ground (arith, eq_iff j i, cancel-rests_self j s, cancel-rests i j s))

active_agent_ids-all :
    (j : String) (d : Dict AgentThreadState)
    → (contains j (active_agent_ids d) || rests (lookup j d)) ≡ true
unfolding active_agent_ids lookup
active_agent_ids-all j [] = refl
active_agent_ids-all j ((i, t) ∷ d) =
    ground (arith, eq_iff i j, eq_iff j i, active_agent_ids-all j d)

-- cancel_all leaves no child thread in a state in which it can still consume work.
pub cancel_all-rests : (j : String) (s : Scheduler) → rests (lookup j (cancel_all s).threads) ≡ true
unfolding cancel_all
cancel_all-rests j s =
    cancel_each-rests (active_agent_ids s.threads) j s (active_agent_ids-all j s.threads)
