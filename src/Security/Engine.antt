-- ===== src/Security/Engine.antt =====
-- agent-harness/src/agent_harness/security/permission_engine.py. An evaluation may raise where a path
-- is refused or a rule cannot be tested.
pub mod Ceiling
use general_agent_design.Common.{
  String, ◌≡◌, Bool, true, false, not, ◌&&◌, ◌||◌, Option, none, some, List, [], ◌∷◌, map, any,
  select, contains, ◌==◌, if◌then◌else◌,
}
use general_agent_design.Common.Dict.{lookup}
use general_agent_design.Domain.Errors.{Result, ok, err, other, ◌>>=◌}
use general_agent_design.Domain.Json.{Value, Arguments}
use general_agent_design.Domain.Tools.{
  Capability, RiskLevel, read_only, low, medium, high, critical, ToolDefinition,
}
use general_agent_design.Security.Models.{
  SandboxMode, read_only_mode, ApprovalPolicy, untrusted, PermissionDecision, allow, ask, deny,
  is_allow, Principal, SandboxPolicy, Reason, outside_allowlist, missing_capabilities, path_policy,
  permission_rules, mcp_mode, profile_default, PermissionEvaluation, has_capability, Host, str,
}
use general_agent_design.Security.Rules.{PermissionRule, matches, raises, resolve_rule_decision}
use general_agent_design.Security.PathPolicy.{ResolvedPath, resolve, requires_approval}

abbrev pub path_tools : List String
path_tools =
    "read_file" ∷ "list_files" ∷ "search_text" ∷ "write_file" ∷ "apply_patch" ∷ "delete_path"
    ∷ "run_command" ∷ []

abbrev is_read_only : RiskLevel → Bool
is_read_only read_only = true
is_read_only _ = false

abbrev is_high : RiskLevel → Bool
is_high high = true
is_high critical = true
is_high _ = false

abbrev is_read_only_mode : SandboxMode → Bool
is_read_only_mode read_only_mode = true
is_read_only_mode _ = false

abbrev is_untrusted : ApprovalPolicy → Bool
is_untrusted untrusted = true
is_untrusted _ = false

unfoldable pub default_decision : Principal → ToolDefinition → PermissionDecision
default_decision principal tool =
    if is_read_only_mode principal.sandbox_mode && not (is_read_only tool.risk_level)
    then deny
    else if is_untrusted principal.approval_policy && not (is_read_only tool.risk_level)
    then ask
    else if tool.name == "delete_path" || is_high tool.risk_level
    then ask
    else allow

-- PermissionDecision(raw) for a raw text that is one of its values.
abbrev pub decision_of : String → Option PermissionDecision
decision_of raw =
    if raw == "ALLOW"
    then some allow
    else if raw == "ASK"
    then some ask
    else if raw == "DENY"
    then some deny
    else none

unfoldable pub evaluate_mcp_policy : ToolDefinition → Option PermissionDecision
evaluate_mcp_policy tool = elim tool.mcp_approval_decision [
  | none ↦ none
  | some raw ↦ decision_of raw
]

abbrev pub empty_list : List Capability → Bool
empty_list [] = true
empty_list _ = false

-- required_capabilities - capabilities, in the tool's order
unfoldable pub missing : Principal → ToolDefinition → List Capability
missing principal tool =
    select (λ c. not (has_capability c principal.capabilities)) tool.required_capabilities

-- A rule that may be used: an ALLOW counts only if it is trusted.
abbrev pub is_effective : PermissionRule → Bool
is_effective r = r.trusted || not (is_allow r.decision)

unfoldable pub result :
    PermissionDecision → Reason → Principal → SandboxPolicy → PermissionEvaluation
result decision reason principal policy = record {
  decision = decision;
  reason = reason;
  matched_rules = [];
  effective_capabilities = principal.capabilities;
  sandbox_policy = policy;
}

unfoldable pub by_profile : Principal → ToolDefinition → SandboxPolicy → PermissionEvaluation
unfolding result
by_profile principal tool policy = elim (evaluate_mcp_policy tool) [
  | some d ↦ result d (mcp_mode tool.mcp_approval_mode) principal policy
  | none ↦ result (default_decision principal tool) profile_default principal policy
]

module _ (h : Host) where
  -- arguments.get("cwd", arguments.get("path", "."))
  abbrev pub raw_path : Arguments → String
  raw_path arguments = first (lookup "cwd" arguments) (lookup "path" arguments)
    where
      first : Option Value → Option Value → String
      first (some v) _ = str h v
      first none (some v) = str h v
      first none none = "."

  abbrev pub ask_if_protected : Result ResolvedPath → Result (Option PermissionDecision)
  ask_if_protected (ok p) = ok (if requires_approval h p then some ask else none)
  ask_if_protected (err e) = err e

  -- The path that a call of a path tool is about.
  unfoldable pub target : String → Arguments → SandboxPolicy → Result ResolvedPath
  target tool_name arguments policy =
      resolve h policy.workspace_root (raw_path arguments)
        (not (contains tool_name ("delete_path" ∷ "write_file" ∷ [])))

  unfoldable pub evaluate_paths :
      String → Arguments → SandboxPolicy → Result (Option PermissionDecision)
  evaluate_paths tool_name arguments policy =
      if not (contains tool_name path_tools)
      then ok none
      else ask_if_protected (target tool_name arguments policy)

  unfoldable pub matching_rules :
      List PermissionRule → Principal → String → Arguments → List PermissionRule
  matching_rules rules principal tool_name arguments =
      select (λ r. matches h r principal tool_name arguments && is_effective r) rules

  unfoldable pub by_rules :
      List PermissionRule
      → Principal
      → ToolDefinition
      → Arguments
      → SandboxPolicy
      → PermissionEvaluation
  unfolding result by_profile
  by_rules rules principal tool arguments policy =
      let found = matching_rules rules principal tool.name arguments in
      elim (resolve_rule_decision found) [
        | some d ↦ record {
          decision = d;
          reason = permission_rules;
          matched_rules = map (λ r. r.rule_id) found;
          effective_capabilities = principal.capabilities;
          sandbox_policy = policy;
        }
        | none ↦ by_profile principal tool policy
      ]

  abbrev pub after_paths :
      List PermissionRule
      → Principal
      → ToolDefinition
      → Arguments
      → SandboxPolicy
      → Result (Option PermissionDecision)
      → Result PermissionEvaluation
  after_paths rules principal tool arguments policy (ok (some d)) =
      ok (result d path_policy principal policy)
  after_paths rules principal tool arguments policy (ok none) =
      if any (λ r. raises h r principal tool.name arguments) rules
      then err (other "TypeError")
      else ok (by_rules rules principal tool arguments policy)
  after_paths rules principal tool arguments policy (err e) = err e

  unfoldable pub evaluate :
      List PermissionRule
      → Principal
      → ToolDefinition
      → Arguments
      → SandboxPolicy
      → Result PermissionEvaluation
  unfolding result
  evaluate rules principal tool arguments policy =
      if not (contains tool.name principal.allowed_tools)
      then ok (result deny outside_allowlist principal policy)
      else if not (empty_list (missing principal tool))
      then ok (result deny (missing_capabilities (missing principal tool)) principal policy)
      else after_paths rules principal tool arguments policy
          (evaluate_paths tool.name arguments policy)
