-- ===== src/Security/Engine/Ceiling.antt =====
-- The decisions of PermissionEngine.evaluate (security/permission_engine.py).
use mathlib.Core.Bool.{decide}
use general_agent_design.Common.{
  ◌≡◌, ◌≢◌, refl, ◌⊎◌, inl, inr, true, false, not, some, List, [], ◌∷◌, any, all, select, contains,
  arith,
}
use general_agent_design.Domain.Errors.{Result-cases, ok}
use general_agent_design.Domain.Json.{Arguments}
use general_agent_design.Domain.Tools.{Capability, ToolDefinition}
use general_agent_design.Security.Models.{
  allow, ask, deny, is_deny, is_ask, path_policy, Principal, SandboxPolicy, PermissionEvaluation,
  has_capability, Host,
}
use general_agent_design.Security.Rules.{PermissionRule, resolve_rule_decision}
use general_agent_design.Security.PathPolicy.{ResolvedPath, requires_approval}
use general_agent_design.Security.Engine.{
  path_tools, missing, target, evaluate_paths, matching_rules, result, by_rules, evaluate,
}

decide-cases {ℓ} : {A : Type ℓ} (d : Dec A) → ((decide d ≡ true) × A) ⊎ (decide d ≡ false)
unfolding decide
decide-cases (yes a) = inl (refl, a)
decide-cases (no n) = inr refl

capable_of :
    (cs own : List Capability)
    → select (λ d. not (has_capability d own)) cs ≡ []
    → all (λ d. has_capability d own) cs ≡ true
capable_of [] own e = refl
capable_of (d ∷ cs) own e = ground (arith, capable_of cs own)

-- The tool is on the allowlist and its capabilities are granted.
pub record IsCleared (principal : Principal) (tool : ToolDefinition) : Type 0 where
  pub listed : contains tool.name principal.allowed_tools ≡ true
  pub capable : all (λ c. has_capability c principal.capabilities) tool.required_capabilities ≡ true

module _ (h : Host) (rules : List PermissionRule) (principal : Principal) (tool : ToolDefinition)
    (arguments : Arguments) (policy : SandboxPolicy) where
  -- A decision other than DENY means that the tool is on the principal's allowlist and that all the
  -- capabilities that it requires are granted.
  pub evaluate-IsCleared :
      (v : PermissionEvaluation)
      → evaluate h rules principal tool arguments policy ≡ ok v
      → v.decision ≢ deny
      → IsCleared principal tool
  unfolding evaluate missing
  evaluate-IsCleared v e n = record {
    listed = ground arith;
    capable = capable_of tool.required_capabilities principal.capabilities (ground arith);
  }

  -- For a tool that takes a path, a decision other than DENY also means that the path policy has
  -- resolved the path.
  pub evaluate-target :
      (v : PermissionEvaluation)
      → evaluate h rules principal tool arguments policy ≡ ok v
      → v.decision ≢ deny
      → contains tool.name path_tools ≡ true
      → (p : ResolvedPath) × (target h tool.name arguments policy ≡ ok p)
  unfolding evaluate evaluate_paths
  evaluate-target v e n m = elim (Result-cases (target h tool.name arguments policy)) [
    | inl found ↦ found
    | inr (x, f) ↦ absurd (ground arith)
  ]

  -- An ALLOW means that the tool is listed and its capabilities are granted, and that no rule which may
  -- be used denies the call or asks for approval.
  pub evaluate-allow :
      (v : PermissionEvaluation)
      → evaluate h rules principal tool arguments policy ≡ ok v
      → v.decision ≡ allow
      → IsCleared principal tool
        × (any (λ r. is_deny r.decision) (matching_rules h rules principal tool.name arguments)
            ≡ false)
        × (any (λ r. is_ask r.decision) (matching_rules h rules principal tool.name arguments)
            ≡ false)
  unfolding evaluate evaluate_paths resolve_rule_decision by_rules
  evaluate-allow v e a = (evaluate-IsCleared v e (λ d. cc), ground arith, ground arith)

  -- An ALLOW for a tool that takes a path means that the resolved path is not one that requires
  -- approval.
  pub evaluate_unprotected :
      (v : PermissionEvaluation) (p : ResolvedPath)
      → evaluate h rules principal tool arguments policy ≡ ok v
      → v.decision ≡ allow
      → contains tool.name path_tools ≡ true
      → target h tool.name arguments policy ≡ ok p
      → requires_approval h p ≡ false
  unfolding evaluate evaluate_paths
  evaluate_unprotected v p e a m t = ground arith

  -- Where a rule that may be used denies a call, the evaluation denies it too, unless the path is a
  -- protected one: then it only asks.
  evaluate-deny :
      (v : PermissionEvaluation)
      → evaluate h rules principal tool arguments policy ≡ ok v
      → any (λ r. is_deny r.decision) (matching_rules h rules principal tool.name arguments) ≡ true
      → (v.decision ≡ deny)
        ⊎ ((v.decision ≡ ask) × (evaluate_paths h tool.name arguments policy ≡ ok (some ask)))
  unfolding evaluate evaluate_paths resolve_rule_decision by_rules
  evaluate-deny v e d = ground arith

  -- A protected path of an allowed and capable call is answered with ASK before any rule is read, so
  -- a DENY rule for that path has no effect.
  evaluate_protected :
      (p : ResolvedPath)
      → contains tool.name principal.allowed_tools ≡ true
      → missing principal tool ≡ []
      → contains tool.name path_tools ≡ true
      → target h tool.name arguments policy ≡ ok p
      → requires_approval h p ≡ true
      → evaluate h rules principal tool arguments policy
        ≡ ok (result ask path_policy principal policy)
  unfolding evaluate evaluate_paths
  evaluate_protected p l m t e q = ground arith
