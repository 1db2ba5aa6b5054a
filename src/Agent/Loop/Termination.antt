-- ===== src/Agent/Loop/Termination.antt =====
-- The rounds of the while loop in AgentLoop.run (runtime/agent_loop.py).
use Prim.Native.Nat.{max}
use mathlib.Core.Option
use general_agent_design.Common.{
  ℕ, zero, suc, ◌+◌, ◌-◌, ◌≤◌, ◌<◌, ◌≡◌, refl, sym, ap, ◌∙◌, inl, inr, ◌⊎◌, Bool, true, false,
  Bool-cases, Option, none, some, arith, if◌then◌else◌,
}
use general_agent_design.Domain.Errors.{Result, ok, err}
use general_agent_design.Runtime.Budgets.{RunLimits}
use general_agent_design.Agent.State.{ModelResponse, running}
use general_agent_design.Agent.Action.{Action, modify, and_then, >>=-ok, ◌>>=◌, ◌>>◌}
use general_agent_design.Agent.Loop.{
  Env, Loop, is_continuing, on_run, set_status, checkpoint, drain_mailbox, begin, reuse_response,
  obtain_response, respond, iteration, continue_with, iterate, as_error, Ending, returned, handle,
  resume_finalization, is_finalizing, run,
}
use general_agent_design.Agent.Loop.Moves.{
  obtain_response-Keeps, respond-Keeps, rest-Keeps, begin-ok, begin-err,
}

-- How far the counters may have gone from `s` to `t`.
pub record Advances (l : RunLimits) (s t : Loop) : Type 0 where
  pub iterations_grow : s.run.iteration ≤ t.run.iteration
  pub iterations_fit : t.run.iteration ≤ max s.run.iteration l.max_iterations
  pub models_grow : s.run.model_call_count ≤ t.run.model_call_count
  pub models_fit : t.run.model_call_count ≤ max s.run.model_call_count l.max_model_calls
  pub tools_grow : s.run.tool_call_count ≤ t.run.tool_call_count
  pub tools_fit : t.run.tool_call_count ≤ max s.run.tool_call_count l.max_tool_calls

-- The rounds that are left: the iterations below the limit, and one for a response to reuse.
abbrev pub rounds : Env → Loop → ℕ
rounds e s =
    e.limits.max_iterations - s.run.iteration + (if is_continuing s.resume_point then 1 else 0)

module _ (e : Env) where
  abbrev rest : Action Loop Bool
  rest = drain_mailbox e >> (obtain_response e >>= respond e)

  obtain_response_settles :
      (s t : Loop) (r : ModelResponse)
      → obtain_response e s ≡ (ok r, t)
      → is_continuing t.resume_point ≡ false
  unfolding obtain_response reuse_response ◌>>=◌
  obtain_response_settles s t r h = elim (Bool-cases (is_continuing s.resume_point)) [
    | inl c ↦ ground arith
    | inr c ↦ ground (arith, (obtain_response-Keeps e).from s)
  ]

  rest_settles : (s t : Loop) (b : Bool) → rest s ≡ (ok b, t) → is_continuing t.resume_point ≡ false
  rest_settles s t b h =
      let (_, u, _, hu) = >>=-ok (drain_mailbox e) (λ _. obtain_response e >>= respond e) s h in
      let (r, w, hr, hw) = >>=-ok (obtain_response e) (respond e) u hu in
      ground (arith, obtain_response_settles u w r hr, (respond-Keeps e r).from w)

  iteration_from :
      (s : Loop) (r : Result (Unit {0}) × Loop)
      → begin e s ≡ r
      → Advances e.limits s (and_then r (λ _. rest)).1
        × ((t : Loop) → and_then r (λ _. rest) ≡ (ok false, t) → rounds e t < rounds e s)
  iteration_from s (err x, u) h = (ground (arith, begin-err e s u x h), λ t q. cc)
  iteration_from s (ok _, u) h =
      let k = (rest-Keeps e).from u in
      elim (begin-ok e s u h) [
        | inl (p, c) ↦ (
          rw p (ground (arith, (rest-Keeps e).from s)),
          λ t q. ground (arith, rest_settles u t false q),
        )
        | inr (p, c, lt) ↦ (ground arith, λ t q. ground (arith, rest_settles u t false q))
      ]

  continue_total :
      (s : Loop) (x : Result Bool × Loop) (next : Loop → Option (Result (Unit {0}) × Loop))
      → ((t : Loop) → x ≡ (ok false, t) → (r : Result (Unit {0}) × Loop) × (next t ≡ some r))
      → (r : Result (Unit {0}) × Loop) × (continue_with x next ≡ some r)
  continue_total s (ok true, t) next h = (_, refl)
  continue_total s (ok false, t) next h = h t refl
  continue_total s (err x, t) next h = (_, refl)

  -- An iteration that goes on leaves fewer rounds.
  iteration_step :
      (s : Loop)
      → Advances e.limits s (iteration e s).1
        × ((t : Loop) → iteration e s ≡ (ok false, t) → rounds e t < rounds e s)
  unfolding iteration ◌>>=◌
  iteration_step s = iteration_from s (begin e s) refl

  iterate_total :
      (fuel : ℕ) (s : Loop)
      → rounds e s < fuel
      → (r : Result (Unit {0}) × Loop) × (iterate e fuel s ≡ some r)
  unfolding iterate
  iterate_total zero s h = absurd (omega arith)
  iterate_total (suc fuel) s h =
      continue_total s (iteration e s) (iterate e fuel)
        λ t q. iterate_total fuel t (let d = (iteration_step s).1 t q in omega arith)

  continue-Advances :
      (s : Loop) (y : Result Bool × Loop) (next : Loop → Option (Result (Unit {0}) × Loop))
      → Advances e.limits s y.1
      → ((u v : Loop) (z : Result (Unit {0})) → next u ≡ some (z, v) → Advances e.limits u v)
      → (t : Loop) (x : Result (Unit {0})) → continue_with y next ≡ some (x, t)
      → Advances e.limits s t
  continue-Advances s (ok true, u) next a k t x q = ground (arith, a)
  continue-Advances s (ok false, u) next a k t x q = let b = k u t x q in ground (arith, a, b)
  continue-Advances s (err y, u) next a k t x q = ground (arith, a)

  iterate-Advances :
      (fuel : ℕ) (s t : Loop) (x : Result (Unit {0}))
      → iterate e fuel s ≡ some (x, t)
      → Advances e.limits s t
  unfolding iterate
  iterate-Advances zero s t x h = cc
  iterate-Advances (suc fuel) s t x h =
      continue-Advances s (iteration e s) (iterate e fuel) (iteration_step s).0
        (λ u v z q. iterate-Advances fuel u v z q) t x h

handle-Advances :
    (l : RunLimits) (s : Loop) (r : Result (Unit {0}) × Loop)
    → Advances l s r.1
    → Advances l s (handle r).1
unfolding handle as_error checkpoint modify
handle-Advances l s (ok _, t) a = ground (arith, a)
handle-Advances l s (err x, t) a = ground (arith, a)

-- The state that the while loop starts from.
abbrev pub started : Loop → Loop
started s = on_run (set_status running) s

-- A run is the recovery of a finalization or the loop.
pub run-cases :
    (e : Env) (fuel : ℕ) (s : Loop)
    → ((is_finalizing s.resume_point ≡ true)
        × (run e fuel s ≡ some (returned, resume_finalization (started s))))
      ⊎ ((is_finalizing s.resume_point ≡ false)
          × (run e fuel s ≡ Option.map handle (iterate e fuel (started s))))
unfolding run
run-cases e fuel s = elim (Bool-cases (is_finalizing s.resume_point)) [
  | inl c ↦ inl (c, simp (c))
  | inr c ↦ inr (c, simp (c))
]

pub map-some :
    {A B : Type 0} (f : A → B) (o : Option A) (b : B)
    → Option.map f o ≡ some b
    → (a : A) × (o ≡ some a) × (f a ≡ b)
map-some f none b h = cc
map-some f (some a) b h = (a, refl, cc)

-- AgentLoop.run ends whatever the provider, the tools and the mailbox do: fuel for two rounds more
-- than the limit of iterations is enough.
pub run_total :
    (e : Env) (fuel : ℕ) (s : Loop)
    → e.limits.max_iterations + 1 < fuel
    → (r : Ending × Loop) × (run e fuel s ≡ some r)
run_total e fuel s h = elim (run-cases e fuel s) [
  | inl (c, q) ↦ (_, q)
  | inr (c, q) ↦
      let (r, p) = iterate_total e fuel (started s) (ground arith) in
      (handle r, q ∙ ap (Option.map handle) p)
]

-- When AgentLoop.run ends, however it ends, its iterations, its model calls and its tool calls have
-- not fallen, and none of them has passed its limit, unless it had passed it before the run.
pub run-Advances :
    (e : Env) (fuel : ℕ) (s t : Loop) (x : Ending)
    → run e fuel s ≡ some (x, t)
    → Advances e.limits s t
unfolding resume_finalization checkpoint modify
run-Advances e fuel s t x h = elim (run-cases e fuel s) [
  | inl (c, q) ↦ ground arith
  | inr (c, q) ↦
      let ((r, u), p, p') = map-some handle (iterate e fuel (started s)) (x, t) (sym q ∙ h) in
      let a = iterate-Advances e fuel (started s) u r p in
      let b = handle-Advances e.limits (started s) (r, u) a in ground (arith, b)
]
