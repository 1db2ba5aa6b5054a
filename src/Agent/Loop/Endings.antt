-- ===== src/Agent/Loop/Endings.antt =====
-- The endings of AgentLoop.run, agent-harness/src/agent_harness/runtime/agent_loop.py.
use mathlib.Core.Option
use general_agent_design.Common.{
  ℕ, zero, suc, String, ◌≡◌, refl, sym, ap, ◌∙◌, inl, inr, Bool, true, false, is_some, Option, none,
  some, List, [], ◌∷◌, arith, if◌then◌else◌,
}
use general_agent_design.Domain.Errors.{Exception, raised, Result, ok, err}
use general_agent_design.Agent.State.{
  ToolCall, ModelResponse, RunStatus, completed, failed, cancelled, ResumePoint, terminal,
  DurableTurnStatus, turn_completed, turn_failed, turn_cancelled,
}
use general_agent_design.Agent.Action.{Action, pure, raise, modify, ◌>>=◌, ◌>>◌}
use general_agent_design.Agent.Loop.{
  Env, Loop, checkpoint, complete_run, call_tools, on_text, respond_with, respond, iteration,
  continue_with, iterate, as_error, Ending, returned, is_cancellation, reraised, handle,
  resume_finalization, is_finalizing, run,
}
use general_agent_design.Agent.Action.{>>=-ok}
use general_agent_design.Agent.Loop.Termination.{started, run-cases, map-some}

-- The durable status of a turn whose run has this status; none for a run that is not over.
abbrev pub durable_of : RunStatus → Option DurableTurnStatus
durable_of completed = some turn_completed
durable_of failed = some turn_failed
durable_of cancelled = some turn_cancelled
durable_of _ = none

abbrev pub newest :
    List (ResumePoint × DurableTurnStatus) → Option (ResumePoint × DurableTurnStatus)
newest [] = none
newest (c ∷ cs) = some c

-- The run is over, and the newest checkpoint says so with the status of the run.
pub record IsSettled (s : Loop) : Type 0 where
  pub over : is_some (durable_of s.run.status) ≡ true
  pub saved : newest s.checkpoints ≡ Option.map (λ d. (terminal, d)) (durable_of s.run.status)

abbrev pub IsEnded : Ending → Loop → Type 0
IsEnded returned s = IsSettled s
IsEnded reraised s = s.run.status ≡ cancelled

pub record IsCompleted (s : Loop) : Type 0 where
  pub is_completed : s.run.status ≡ completed
  pub has_output : is_some s.run.final_output ≡ true
  pub saved_last : newest s.checkpoints ≡ some (terminal, turn_completed)

-- Where the action answers true, it has completed the run.
record Completes (m : Action Loop Bool) : Type 0 where
  at : (s t : Loop) → m s ≡ (ok true, t) → IsCompleted t

Completes-false : Completes (pure false)
unfolding pure
Completes-false = record { at = λ s t h. cc }

Completes-raise : (x : Exception) → Completes (raise x)
unfolding raise
Completes-raise x = record { at = λ s t h. cc }

Completes-bind :
    {A : Type 0} (m : Action Loop A) (f : A → Action Loop Bool)
    → ((a : A) → Completes (f a))
    → Completes (m >>= f)
Completes-bind m f k = record { at = λ s t h. let (a, u, _, q) = >>=-ok m f s h in (k a).at u t q }

Completes-if :
    (b : Bool) (m n : Action Loop Bool) → Completes m → Completes n → Completes (if b then m else n)
Completes-if true m n km kn = km
Completes-if false m n km kn = kn

Completes-complete_run : (output : String) → Completes (complete_run output >> pure true)
unfolding complete_run ◌>>=◌ checkpoint modify pure
Completes-complete_run output = record { at = λ s t h. ground arith }

ruleset complete_rules =
    (Completes-false, Completes-raise, Completes-bind, Completes-if, Completes-complete_run)

module _ (e : Env) where
  call_tools-Completes : (calls : List ToolCall) → Completes (call_tools e calls)
  unfolding call_tools
  call_tools-Completes [] = Completes-false
  call_tools-Completes (call ∷ calls) =
      Completes-bind _ _
        λ result. Completes-if _ _ _ (Completes-complete_run _) (call_tools-Completes calls)

  on_text-Completes : (response : ModelResponse) → Completes (on_text e response)
  unfolding on_text
  on_text-Completes response = Completes-if _ _ _ (Completes-raise _) (
      Completes-bind _ _ λ decision.
        Completes-if _ _ _ (Completes-complete_run _) (Completes-bind _ _ (λ _. Completes-false)))

  respond_with-Completes :
      (calls : List ToolCall) (response : ModelResponse) → Completes (respond_with e calls response)
  unfolding respond_with
  respond_with-Completes [] response = on_text-Completes response
  respond_with-Completes (call ∷ calls) response = Completes-bind _ _ (λ ms. call_tools-Completes _)

  iteration-Completes : Completes (iteration e)
  unfolding iteration respond
  iteration-Completes = Completes-bind _ _ λ _.
      Completes-bind _ _
        λ _. Completes-bind _ _ λ response. respond_with-Completes response.tool_calls response

  continue-ok :
      (y : Result Bool × Loop) (next : Loop → Option (Result (Unit {0}) × Loop))
      → ((u : Loop) → y ≡ (ok true, u) → IsCompleted u)
      → ((u v : Loop) → next u ≡ some (ok tt, v) → IsCompleted v)
      → (t : Loop) → continue_with y next ≡ some (ok tt, t)
      → IsCompleted t
  continue-ok (ok true, u) next k k' t q = let c = k u refl in ground (arith, c)
  continue-ok (ok false, u) next k k' t q = k' u t q
  continue-ok (err x, u) next k k' t q = cc

  -- The while loop returns normally only from a completed run.
  iterate-ok : (fuel : ℕ) (s t : Loop) → iterate e fuel s ≡ some (ok tt, t) → IsCompleted t
  unfolding iterate
  iterate-ok zero s t h = cc
  iterate-ok (suc fuel) s t h =
      continue-ok (iteration e s) (iterate e fuel) (λ u. iteration-Completes.at s u)
        (λ u v. iterate-ok fuel u v) t h

IsEnded-if :
    (b : Bool) (x y : Ending × Loop)
    → IsEnded x.0 x.1
    → IsEnded y.0 y.1
    → IsEnded (if b then x else y).0 (if b then x else y).1
IsEnded-if true x y p q = p
IsEnded-if false x y p q = q

handle-IsEnded :
    (r : Result (Unit {0}) × Loop)
    → ((u : Loop) → r ≡ (ok tt, u) → IsCompleted u)
    → IsEnded (handle r).0 (handle r).1
unfolding handle as_error checkpoint modify
handle-IsEnded (ok _, u) k = let c = k u refl in ground (arith, c)
handle-IsEnded (err Exception.cancelled, u) k = refl
handle-IsEnded (err (raised x), u) k =
    IsEnded-if (is_cancellation x) _ _ (ground arith) (ground arith)
handle-IsEnded (err x, u) k = ground arith

IsEnded-same : {y z : Ending × Loop} → y ≡ z → IsEnded y.0 y.1 → IsEnded z.0 z.1
IsEnded-same p v = coe 0 1 (i. IsEnded (p i).0 (p i).1) v

recovered-IsSettled : (s : Loop) → IsSettled (resume_finalization s)
unfolding resume_finalization checkpoint modify
recovered-IsSettled s = ground arith

-- When AgentLoop.run returns, the run is completed, failed or cancelled, and the newest checkpoint is the
-- terminal one with the matching status of the turn; when it raises CancelledError again, the run is
-- cancelled.
pub run-IsEnded :
    (e : Env) (fuel : ℕ) (s t : Loop) (x : Ending) → run e fuel s ≡ some (x, t) → IsEnded x t
run-IsEnded e fuel s t x h = elim (run-cases e fuel s) [
  | inl (c, q) ↦
      IsEnded-same {y = (returned, resume_finalization (started s))} (ground arith)
        (recovered-IsSettled (started s))
  | inr (c, q) ↦
      let ((r, u), p, p') = map-some handle (iterate e fuel (started s)) (x, t) (sym q ∙ h) in
      IsEnded-same p'
        (handle-IsEnded (r, u) (λ v p''. iterate-ok e fuel (started s) v (p ∙ ap some p'')))
]

handle_output :
    (r : Result (Unit {0})) (u t : Loop)
    → (r ≡ ok tt → is_some u.run.final_output ≡ true)
    → handle (r, u) ≡ (returned, t)
    → t.run.status ≡ completed
    → is_some t.run.final_output ≡ true
unfolding handle as_error checkpoint modify
handle_output (ok _) u t k h d = let o = k refl in ground arith
handle_output (err x) u t k h d = ground arith

-- A run that AgentLoop.run completes without resuming a finalization has a final output.
run_output :
    (e : Env) (fuel : ℕ) (s t : Loop)
    → run e fuel s ≡ some (returned, t)
    → is_finalizing s.resume_point ≡ false
    → t.run.status ≡ completed
    → is_some t.run.final_output ≡ true
run_output e fuel s t h c d = elim (run-cases e fuel s) [
  | inl (c', q) ↦ cc
  | inr (c', q) ↦
      let ((r, u), p, p') =
        map-some handle (iterate e fuel (started s)) (returned, t) (sym q ∙ h) in
      handle_output r u t
        (λ o. (iterate-ok e fuel (started s) u (p ∙ ap (λ z. some (z, u)) o)).has_output) p' d
]
