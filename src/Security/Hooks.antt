-- ===== src/Security/Hooks.antt =====
-- agent-harness/src/agent_harness/security/hooks.py, and what ToolRuntime.execute makes of a hook's
-- decision (agent-harness/src/agent_harness/tools/runtime.py). A callback is its outcome: the decision
-- that it returned in time, or an exception or timeout.
use Prim.Native.Nat.{max}
use general_agent_design.Common.{
  ℕ, ◌≤◌, ◌≡◌, refl, Bool, true, false, List, [], ◌∷◌, any, arith, if◌then◌else◌,
}
use general_agent_design.Security.Models.{PermissionDecision, allow, ask, deny}

pub data HookDecision : Type 0 where
  pass ask_user refuse : HookDecision

pub data Outcome : Type 0 where
  returned : HookDecision → Outcome
  raised : Outcome

-- The loop over the callbacks: `decisions` so far; the first failure ends it with DENY.
abbrev is_refuse : HookDecision → Bool
is_refuse refuse = true
is_refuse _ = false

abbrev is_ask_user : HookDecision → Bool
is_ask_user ask_user = true
is_ask_user _ = false

unfoldable pub resolve_hooks : List HookDecision → HookDecision
resolve_hooks decisions =
    if any is_refuse decisions then refuse else if any is_ask_user decisions then ask_user else pass

unfoldable pub run_hooks : List HookDecision → List Outcome → HookDecision
unfolding resolve_hooks
run_hooks decisions [] = resolve_hooks decisions
run_hooks decisions (returned d ∷ outcomes) = run_hooks (d ∷ decisions) outcomes
run_hooks decisions (raised ∷ outcomes) = refuse

-- HookManager.run
unfoldable pub run : List Outcome → HookDecision
unfolding run_hooks
run outcomes = run_hooks [] outcomes

-- The lines of ToolRuntime.execute that follow PreToolUse.
unfoldable pub after_hook : HookDecision → PermissionDecision → PermissionDecision
after_hook refuse d = deny
after_hook ask_user allow = ask
after_hook _ d = d

abbrev pub strictness : PermissionDecision → ℕ
strictness allow = 0
strictness ask = 1
strictness deny = 2

abbrev pub demand : Outcome → ℕ
demand (returned pass) = 0
demand (returned ask_user) = 1
demand (returned refuse) = 2
demand raised = 2

abbrev pub demands : List Outcome → ℕ
demands [] = 0
demands (o ∷ os) = max (demand o) (demands os)

demands_of : List HookDecision → ℕ
demands_of [] = 0
demands_of (d ∷ ds) = max (demand (returned d)) (demands_of ds)

demands_of-le : (ds : List HookDecision) → demands_of ds ≤ 2
unfolding demands_of
demands_of-le [] = omega arith
demands_of-le (d ∷ ds) = ground (arith, demands_of-le ds)

demands-le : (os : List Outcome) → demands os ≤ 2
demands-le [] = omega arith
demands-le (returned d ∷ os) = ground (arith, demands-le os)
demands-le (raised ∷ os) = ground (arith, demands-le os)

demand-resolve_hooks :
    (ds : List HookDecision) → demand (returned (resolve_hooks ds)) ≡ demands_of ds
unfolding resolve_hooks demands_of
demand-resolve_hooks [] = refl
demand-resolve_hooks (d ∷ ds) = ground (arith, demand-resolve_hooks ds)

demand-run_hooks :
    (ds : List HookDecision) (os : List Outcome)
    → demand (returned (run_hooks ds os)) ≡ max (demands_of ds) (demands os)
unfolding run_hooks demands_of
demand-run_hooks ds [] = omega (arith, demand-resolve_hooks ds)
demand-run_hooks ds (returned d ∷ os) = ground (arith, demand-run_hooks (d ∷ ds) os)
demand-run_hooks ds (raised ∷ os) = omega (arith, demands_of-le ds, demands-le os)

-- With any hooks, the decision on a call is the stricter one of the evaluation and of what the
-- hooks demand, a hook that fails demanding DENY: no hook can allow a call that was not allowed.
pub strictness-after_hook :
    (os : List Outcome) (d : PermissionDecision)
    → strictness (after_hook (run os) d) ≡ max (strictness d) (demands os)
unfolding after_hook run demands_of
strictness-after_hook os d = ground (arith, demand-run_hooks [] os)
