-- ===== src/Agent/Loop/Moves.antt =====
-- The counters of a run in the actions of AgentLoop.run (runtime/agent_loop.py).
use Prim.Native.Nat.{max}
use general_agent_design.Common.{
  ◌+◌, ◌≤◌, ◌<◌, String, ◌≡◌, ◌⊎◌, Bool, true, false, List, [], ◌∷◌, arith, if◌then◌else◌,
}
use general_agent_design.Domain.Errors.{Exception, Result, ok, err}
use general_agent_design.Runtime.Budgets.{
  RunLimits, check_wall_time, check_iteration, check_model_calls, check_tool_calls,
}
use general_agent_design.Agent.State.{CanonicalMessage, ToolCall, ModelResponse}
use general_agent_design.Agent.Action.{
  Action, pure, raise, lift, gets, modify, and_then, ◌>>=◌, ◌>>◌,
}
use general_agent_design.Agent.Loop.{
  Env, Loop, is_continuing, on_run, append, drain_mailbox, stop_if_requested, begin, call_model,
  reuse_response, obtain_response, complete_run, call_tool, call_tools, decide_text, on_text,
  respond_with, respond,
}

-- From `s` to `t` within one iteration: the iteration stays, the calls grow up to the limits only, and
-- no response is marked for reuse anew.
pub record Moves (l : RunLimits) (s t : Loop) : Type 0 where
  pub same_iteration : t.run.iteration ≡ s.run.iteration
  pub models_grow : s.run.model_call_count ≤ t.run.model_call_count
  pub models_fit : t.run.model_call_count ≤ max s.run.model_call_count l.max_model_calls
  pub tools_grow : s.run.tool_call_count ≤ t.run.tool_call_count
  pub tools_fit : t.run.tool_call_count ≤ max s.run.tool_call_count l.max_tool_calls
  pub no_reuse : is_continuing s.resume_point ≡ false → is_continuing t.resume_point ≡ false

module _ (l : RunLimits) where
  pub Moves-refl : (s : Loop) → Moves l s s
  Moves-refl s = ground arith

  pub Moves-trans : {s t u : Loop} → Moves l s t → Moves l t u → Moves l s u
  Moves-trans a b = ground arith

  -- An action moves so from every state.
  pub record Keeps {A : Type 0} (m : Action Loop A) : Type 0 where
    pub from : (s : Loop) → Moves l s (m s).1

  Keeps-pure : {A : Type 0} (a : A) → Keeps (pure {S = Loop} a)
  unfolding pure
  Keeps-pure a = record { from = Moves-refl }

  Keeps-raise : {A : Type 0} (x : Exception) → Keeps (raise {S = Loop} {A = A} x)
  unfolding raise
  Keeps-raise x = record { from = Moves-refl }

  Keeps-lift : {A : Type 0} (r : Result A) → Keeps (lift {S = Loop} r)
  unfolding lift
  Keeps-lift r = record { from = Moves-refl }

  Keeps-gets : {A : Type 0} (f : Loop → A) → Keeps (gets f)
  unfolding gets
  Keeps-gets f = record { from = Moves-refl }

  pub Keeps-modify : (f : Loop → Loop) → ((s : Loop) → Moves l s (f s)) → Keeps (modify f)
  unfolding modify
  Keeps-modify f k = record { from = k }

  and_then-Moves :
      {A B : Type 0} (s : Loop) (r : Result A × Loop) (f : A → Action Loop B)
      → Moves l s r.1
      → ((a : A) → Keeps (f a))
      → Moves l s (and_then r f).1
  and_then-Moves s (ok a, t) f m k = Moves-trans m ((k a).from t)
  and_then-Moves s (err x, t) f m k = m

  Keeps-bind :
      {A B : Type 0} (m : Action Loop A) (f : A → Action Loop B)
      → Keeps m
      → ((a : A) → Keeps (f a))
      → Keeps (m >>= f)
  unfolding ◌>>=◌
  Keeps-bind m f km kf = record { from = λ s. and_then-Moves s (m s) f (km.from s) kf }

  Keeps-if :
      {A : Type 0} (b : Bool) (m n : Action Loop A) → Keeps m → Keeps n → Keeps (if b then m else n)
  Keeps-if true m n km kn = km
  Keeps-if false m n km kn = kn

  ruleset keep_rules = (Keeps-pure, Keeps-raise, Keeps-lift, Keeps-gets, Keeps-bind, Keeps-if)

module _ (e : Env) where
  pub drain_mailbox-Keeps : Keeps e.limits (drain_mailbox e)
  unfolding drain_mailbox
  drain_mailbox-Keeps = Keeps-modify e.limits _ (λ s. ground arith)

  call_model-Keeps : Keeps e.limits (call_model e)
  unfolding call_model ◌>>=◌ check_model_calls
  call_model-Keeps = record { from = λ s. ground arith }

  reuse_response-Keeps : Keeps e.limits (reuse_response)
  unfolding reuse_response ◌>>=◌
  reuse_response-Keeps = record { from = λ s. ground arith }

  pub obtain_response-Keeps : Keeps e.limits (obtain_response e)
  unfolding obtain_response
  obtain_response-Keeps = search (keep_rules, call_model-Keeps, reuse_response-Keeps)

  complete_run-Keeps : (output : String) → Keeps e.limits (complete_run output)
  unfolding complete_run ◌>>=◌
  complete_run-Keeps output = record { from = λ s. ground arith }

  call_tool-Keeps : (call : ToolCall) → Keeps e.limits (call_tool e call)
  unfolding call_tool ◌>>=◌ check_tool_calls
  call_tool-Keeps call = record { from = λ s. ground arith }

  pub call_tools-Keeps : (calls : List ToolCall) → Keeps e.limits (call_tools e calls)
  unfolding call_tools
  call_tools-Keeps [] = Keeps-pure e.limits false
  call_tools-Keeps (call ∷ calls) = Keeps-bind e.limits _ _ (call_tool-Keeps call) λ result.
      Keeps-if e.limits _ _ _
        (Keeps-bind e.limits _ _ (complete_run-Keeps _) (λ _. Keeps-pure e.limits true))
        (call_tools-Keeps calls)

  decide_text-Keeps : Keeps e.limits (decide_text e)
  unfolding decide_text ◌>>=◌
  decide_text-Keeps = record { from = λ s. ground arith }

  say_user-Keeps : (ms : List CanonicalMessage) → Keeps e.limits (modify (on_run (append ms)))
  say_user-Keeps ms = Keeps-modify e.limits _ (λ s. ground arith)

  on_text-Keeps : (response : ModelResponse) → Keeps e.limits (on_text e response)
  unfolding on_text
  on_text-Keeps response =
      search (keep_rules, complete_run-Keeps, decide_text-Keeps, say_user-Keeps) depth 8

  respond_with-Keeps :
      (calls : List ToolCall) (response : ModelResponse)
      → Keeps e.limits (respond_with e calls response)
  unfolding respond_with
  respond_with-Keeps [] response = on_text-Keeps response
  respond_with-Keeps (call ∷ calls) response =
      Keeps-bind e.limits _ _ (Keeps-gets e.limits _) (λ ms. call_tools-Keeps _)

  pub respond-Keeps : (response : ModelResponse) → Keeps e.limits (respond e response)
  unfolding respond
  respond-Keeps response = respond_with-Keeps response.tool_calls response

  -- After `begin` the rest of an iteration only moves.
  pub rest-Keeps : Keeps e.limits (drain_mailbox e >> (obtain_response e >>= respond e))
  rest-Keeps = search (keep_rules, drain_mailbox-Keeps, obtain_response-Keeps, respond-Keeps)

-- Where `begin` returns, it has counted an iteration below the limit, or a response is to be reused.
pub begin-ok :
    (e : Env) (s t : Loop)
    → begin e s ≡ (ok tt, t)
    → ((t ≡ s) × (is_continuing s.resume_point ≡ true))
      ⊎ ((t ≡ on_run (λ r. record r { iteration = r.iteration + 1 }) s)
          × (is_continuing s.resume_point ≡ false)
          × (s.run.iteration < e.limits.max_iterations))
unfolding begin stop_if_requested ◌>>=◌ check_wall_time check_iteration
begin-ok e s t h = ground arith

pub begin-err : (e : Env) (s t : Loop) (x : Exception) → begin e s ≡ (err x, t) → t ≡ s
unfolding begin stop_if_requested ◌>>=◌ check_wall_time check_iteration
begin-err e s t x h = ground arith
