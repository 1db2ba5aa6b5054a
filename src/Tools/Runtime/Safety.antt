-- ===== src/Tools/Runtime/Safety.antt =====
-- When ToolRuntime.execute (agent-harness/src/agent_harness/tools/runtime.py) may touch the world, and
-- what it returns.
use general_agent_design.Common.{
  String, ◌≡◌, ◌≢◌, refl, sym, ap, ◌∙◌, ◌⊎◌, inl, inr, true, Option, some, none, arith,
  Option-cases,
}
use general_agent_design.Common.Dict.{lookup}
use general_agent_design.Agent.Action.{pure, raise, lift, modify, and_then, ◌>>=◌, ◌>>◌}
use general_agent_design.Agent.State.{ToolResult}
use general_agent_design.Domain.Errors.{
  Exception, raised, value_error, timed_out, other, cancelled, Result, ok, err, >>=-ok,
}
use general_agent_design.Domain.Json.{dict}
use general_agent_design.Security.Models.{
  never, PermissionDecision, allow, ask, deny, Principal, Reason,
}
use general_agent_design.Security.Engine.{evaluate}
use general_agent_design.Security.Grants.{allows}
use general_agent_design.Security.Hooks.{run, after_hook}
use general_agent_design.Security.Approval.{
  Gate, emit, permission_evaluated, hook_started, hook_completed, request_for, authorize_or_approve,
}
use general_agent_design.Security.Approval.Outcomes.{IsApproved, authorize_or_approve-ask}
use general_agent_design.Tools.Schema.{validate_value}
use general_agent_design.Tools.Schema.Conformity.{Conforms}
use general_agent_design.Tools.Schema.Agreement.{validate_value-Conforms}
use general_agent_design.Tools.Runtime.{
  Tool, get, RawCall, Env, Session, sandbox_policy, with_gate, in_gate, note, as_members, Prepared,
  coerce_arguments, required, prepare, reason_after, admit, run_tool, attempt, report, handled,
  execute,
}

module _ {W : Type 0} (e : Env W) where
  -- A call that is read, checked and evaluated: its tool is registered, its arguments are an object
  -- that conforms to the tool's schema, and the evaluation is the engine's.
  pub record IsPrepared (principal : Option Principal) (call : RawCall) (p : Prepared W)
      : Type 0 where
    pub caller : principal ≡ some p.principal
    pub registered : lookup call.name e.tools ≡ some p.tool
    pub read : coerce_arguments e call.arguments ≡ ok p.arguments
    pub conforming : Conforms e.python (dict (as_members p.arguments)) p.tool.input_schema
    pub evaluated :
        evaluate e.host e.rules p.principal p.tool.definition p.arguments
          (sandbox_policy e p.principal)
        ≡ ok p.evaluation

  get-ok :
      (name : String) (tool : Tool W) → get name e.tools ≡ ok tool → lookup name e.tools ≡ some tool
  unfolding get
  get-ok name tool h = elim (Option-cases (lookup name e.tools)) [
    | inl n ↦ absurd (ground (arith, n))
    | inr (t, p) ↦ ground (arith, p)
  ]

  required-ok :
      (principal : Option Principal) (call : RawCall) (p : Principal)
      → required e principal call ≡ ok p
      → principal ≡ some p
  required-ok none call p h = absurd cc
  required-ok (some q) call p h = ground arith

  prepare-IsPrepared :
      (principal : Option Principal) (call : RawCall) (p : Prepared W)
      → prepare e principal call ≡ ok p
      → IsPrepared principal call p
  unfolding prepare
  prepare-IsPrepared principal call p h =
      let (q, eq, h1) = >>=-ok (required e principal call) _ h in
      let (tool, et, h2) = >>=-ok (get call.name e.tools) _ h1 in
      let (args, ea, h3) = >>=-ok (coerce_arguments e call.arguments) _ h2 in
      let (u, ev, h4) =
        >>=-ok (validate_value e.python (dict (as_members args)) tool.input_schema "arguments") _
          h3 in
      let (v, ee, h5) =
        >>=-ok (evaluate e.host e.rules q tool.definition args (sandbox_policy e q)) _ h4 in
      let q_is : record { principal = q; tool = tool; arguments = args; evaluation = v } ≡ p = cc in
      coe 0 1 (i. IsPrepared principal call (q_is i)) (record {
        caller = required-ok principal call q eq;
        registered = get-ok call.name tool et;
        read = ea;
        conforming = (validate_value-Conforms e.python _ _ "arguments").0 ev;
        evaluated = ee;
      })

  -- The approvals once the evaluation and the PreToolUse hooks are noted.
  abbrev pub noted : RawCall → Prepared W → Gate → Gate
  noted call p g = emit (hook_completed "PreToolUse" call.id) (
      emit (hook_started "PreToolUse" call.id)
        (emit (permission_evaluated call.id p.evaluation.decision p.evaluation.reason) g))

  -- The decision after the hooks, and the approval that an ASK still needs.
  abbrev pub decided : RawCall → Prepared W → PermissionDecision
  decided call p =
      after_hook (run (e.pre_hooks call.name p.arguments p.principal)) p.evaluation.decision

  abbrev pub reason_of : RawCall → Prepared W → Reason
  reason_of call p =
      reason_after (run (e.pre_hooks call.name p.arguments p.principal)) p.evaluation.decision
        p.evaluation.reason

  -- A call that may run from a state: not denied, and if asked for then granted or approved now.
  pub data IsAdmitted (call : RawCall) (p : Prepared W) (g : Gate) : Type 0 where
    allowed : decided call p ≡ allow → IsAdmitted call p g
    granted :
        decided call p ≡ ask
        → allows e.host e.digest g.grants p.principal p.tool.definition.name p.arguments ≡ true
        → IsAdmitted call p g
    approved :
        (t : Gate)
        → decided call p ≡ ask
        → p.principal.approval_policy ≢ never
        → IsApproved e.stable_id e.handler
            (request_for e.stable_id p.tool.definition call.id p.arguments p.principal
              (reason_of call p))
            (noted call p g)
            t
        → IsAdmitted call p g

  abbrev asked : RawCall → Prepared W → PermissionDecision → Gate → Result (Unit {0}) × Gate
  asked call p d g =
      authorize_or_approve e.host e.digest e.stable_id e.handler p.tool.definition call.id
        p.arguments p.principal d (reason_of call p) (noted call p g)

  decision-IsAdmitted :
      (call : RawCall) (p : Prepared W) (g t : Gate) (d : PermissionDecision)
      → decided call p ≡ d
      → asked call p d g ≡ (ok tt, t)
      → IsAdmitted call p g
  unfolding authorize_or_approve
  decision-IsAdmitted call p g t allow q h = allowed q
  decision-IsAdmitted call p g t deny q h = absurd cc
  decision-IsAdmitted call p g t ask q h =
      elim (authorize_or_approve-ask e.host e.digest e.stable_id e.handler p.tool.definition call.id
        p.arguments p.principal (reason_of call p) (noted call p g) t h) [
          | inl a ↦ granted q a
          | inr (n, a) ↦ approved t q n a
        ]

  gate_ok :
      {A : Type 0} (s : Session W) (r : Result A × Gate) (a : A) (t : Session W)
      → with_gate s r ≡ (ok a, t)
      → r ≡ (ok a, t.gate)
  gate_ok s (ok b, g) a t h = cc
  gate_ok s (err x, g) a t h = absurd cc

  admit-IsAdmitted :
      (call : RawCall) (p : Prepared W) (s t : Session W)
      → admit e call p s ≡ (ok tt, t)
      → IsAdmitted call p s.gate
  unfolding admit in_gate note modify ◌>>=◌
  admit-IsAdmitted call p s t h = decision-IsAdmitted call p s.gate t.gate (decided call p) refl (
      gate_ok (record { gate = noted call p s.gate; world = s.world })
        (asked call p (decided call p) s.gate) tt t h)

  world-with_gate :
      {A : Type 0} (s : Session W) (r : Result A × Gate) → (with_gate s r).1.world ≡ s.world
  world-with_gate s (r, g) = refl

  world-admit :
      (call : RawCall) (p : Prepared W) (s : Session W) → (admit e call p s).1.world ≡ s.world
  unfolding admit in_gate note modify ◌>>=◌
  world-admit call p s =
      world-with_gate (record { gate = noted call p s.gate; world = s.world })
        (asked call p (decided call p) s.gate)

  world-report :
      (call : RawCall) (x : Exception) (s : Session W) → (report e call x s).1.world ≡ s.world
  unfolding report note modify ◌>>=◌ pure raise
  world-report call timed_out s = refl
  world-report call (raised x) s = refl
  world-report call (value_error m) s = ground arith
  world-report call (other m) s = ground arith
  world-report call cancelled s = refl

  -- Where a call stops: before it is admitted, with the world as it was, or not.
  data IsStopped (principal : Option Principal) (call : RawCall) (s u : Session W) : Type 0 where
    early : u.world ≡ s.world → IsStopped principal call s u
    late :
        (p : Prepared W)
        → IsPrepared principal call p
        → IsAdmitted call p s.gate
        → IsStopped principal call s u

  admitted-IsStopped :
      (principal : Option Principal) (call : RawCall) (p : Prepared W) (s u : Session W)
      (r : Result (Unit {0}) × Session W)
      → IsPrepared principal call p
      → admit e call p s ≡ r
      → (and_then r (λ _. run_tool e call p)).1 ≡ u
      → IsStopped principal call s u
  admitted-IsStopped principal call p s u (ok tt, v) i h k =
      late p i (admit-IsAdmitted call p s v h)
  admitted-IsStopped principal call p s u (err x, v) i h k = early (
      ap (λ (z : Session W). z.world) (sym k)
      ∙ sym (ap (λ (z : Result (Unit {0}) × Session W). z.1.world) h)
      ∙ world-admit call p s)

  attempt-IsStopped :
      (principal : Option Principal) (call : RawCall) (s : Session W) (r : Result (Prepared W))
      → prepare e principal call ≡ r
      → IsStopped principal call s (and_then (r, s) (λ p. admit e call p >> run_tool e call p)).1
  unfolding ◌>>=◌
  attempt-IsStopped principal call s (ok p) h =
      admitted-IsStopped principal call p s _ (admit e call p s)
        (prepare-IsPrepared principal call p h) refl refl
  attempt-IsStopped principal call s (err x) h = early refl

  world-handled :
      (call : RawCall) (r : Result ToolResult × Session W) → (handled e call r).1.world ≡ r.1.world
  world-handled call (ok a, u) = refl
  world-handled call (err x, u) = world-report call x u

  -- A call leaves the world of the executors and the artifacts as it was, unless its tool is
  -- registered, its arguments conform to the tool's schema, the permission engine has evaluated it,
  -- and after the hooks it is allowed, granted, or approved by a fresh approval.
  pub execute_guarded :
      (principal : Option Principal) (call : RawCall) (s : Session W)
      → ((execute e principal call s).1.world ≡ s.world)
        ⊎ ((p : Prepared W) × IsPrepared principal call p × IsAdmitted call p s.gate)
  unfolding execute attempt lift ◌>>=◌
  execute_guarded principal call s =
      elim (attempt-IsStopped principal call s (prepare e principal call) refl) [
        | early w ↦ inl (world-handled call (attempt e principal call s) ∙ w)
        | late p i a ↦ inr (p, i, a)
      ]
