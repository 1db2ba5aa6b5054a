-- ===== src/Security/Rules/Precedence.antt =====
-- resolve_rule_decision (security/rules.py) against the order of severity.
use Prim.Native.Nat.{max}
use general_agent_design.Common.{ℕ, ◌≡◌, refl, Option, none, some, List, [], ◌∷◌, arith}
use general_agent_design.Security.Models.{PermissionDecision, allow, ask, deny}
use general_agent_design.Security.Rules.{PermissionRule, resolve_rule_decision}

-- The order of severity of decisions, with `none` (no rule matches) below them all.
abbrev pub severity : Option PermissionDecision → ℕ
severity none = 0
severity (some allow) = 1
severity (some ask) = 2
severity (some deny) = 3

abbrev pub worst : List PermissionRule → ℕ
worst [] = 0
worst (r ∷ rules) = max (severity (some r.decision)) (worst rules)

-- The decision of a set of matching rules is the most severe one among them, and there is none
-- exactly when no rule matches.
pub severity-resolve_rule_decision :
    (rules : List PermissionRule) → severity (resolve_rule_decision rules) ≡ worst rules
unfolding resolve_rule_decision
severity-resolve_rule_decision [] = refl
severity-resolve_rule_decision (r ∷ rules) = ground (arith, severity-resolve_rule_decision rules)
