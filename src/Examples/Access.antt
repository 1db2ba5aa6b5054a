-- ===== src/Examples/Access.antt =====
-- Evaluations of a call that reads a file.
use general_agent_design.Common.{◌≡◌, refl, false, any, [], ◌∷◌}
use mathlib.Core.Bool.{decide}
use general_agent_design.Common.Dict.{lookup}
use general_agent_design.Domain.Errors.{ok}
use general_agent_design.Domain.Tools.{Capability-discrete}
use general_agent_design.Security.Models.{
  allow, is_deny, is_ask, profile_default, PermissionEvaluation,
}
use general_agent_design.Security.Rules.{matches, resolve_rule_decision}
use general_agent_design.Security.PathPolicy.{
  ResolvedPath, relative_to, reject_denied, within, resolve, requires_approval,
}
use general_agent_design.Security.PathPolicy.Boundary.{IsInside, resolve-IsInside}
use general_agent_design.Security.Engine.{
  default_decision, evaluate_mcp_policy, missing, result, by_profile, target, evaluate_paths,
  matching_rules, by_rules, evaluate,
}
use general_agent_design.Security.Engine.Ceiling.{IsCleared, evaluate-allow}
use general_agent_design.Security.Hooks.{
  ask_user, returned, raised, run, after_hook, strictness, strictness-after_hook,
}
use general_agent_design.Examples.Hosts.{host, principal, tool, policy, at_path}

abbrev allowed : PermissionEvaluation
allowed = record {
  decision = allow;
  reason = profile_default;
  matched_rules = [];
  effective_capabilities = principal.capabilities;
  sandbox_policy = policy;
}

abbrev found : ResolvedPath
found = record {
  original = "work" ∷ "a.txt" ∷ [];
  resolved = "work" ∷ "a.txt" ∷ [];
  relative = "a.txt";
}

is_allowed : evaluate host [] principal tool (at_path "a.txt") policy ≡ ok allowed
unfolding evaluate missing decide Capability-discrete evaluate_paths target resolve within
    reject_denied relative_to requires_approval by_rules matching_rules matches
    resolve_rule_decision by_profile evaluate_mcp_policy default_decision result lookup
is_allowed = refl

is_found : target host tool.name (at_path "a.txt") policy ≡ ok found
unfolding evaluate missing decide Capability-discrete evaluate_paths target resolve within
    reject_denied relative_to requires_approval by_rules matching_rules matches
    resolve_rule_decision by_profile evaluate_mcp_policy default_decision result lookup
is_found = refl

evaluate-allow_example :
    IsCleared principal tool
    × (any (λ r. is_deny r.decision) (matching_rules host [] principal tool.name (at_path "a.txt"))
        ≡ false)
    × (any (λ r. is_ask r.decision) (matching_rules host [] principal tool.name (at_path "a.txt"))
        ≡ false)
evaluate-allow_example =
    evaluate-allow host [] principal tool (at_path "a.txt") policy allowed is_allowed refl

resolve-IsInside_example :
    (host.is_absolute "a.txt" ≡ false)
    × IsInside host (host.canonical policy.workspace_root) false found
unfolding evaluate missing decide Capability-discrete evaluate_paths target resolve within
    reject_denied relative_to requires_approval by_rules matching_rules matches
    resolve_rule_decision by_profile evaluate_mcp_policy default_decision result lookup
resolve-IsInside_example = resolve-IsInside host policy.workspace_root "a.txt" false found refl

strictness-after_hook_example :
    strictness (after_hook (run (returned ask_user ∷ raised ∷ [])) allow) ≡ 2
strictness-after_hook_example = strictness-after_hook (returned ask_user ∷ raised ∷ []) allow
