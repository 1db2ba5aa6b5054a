-- ===== src/Mcp/Approval/Waivers.antt =====
-- When a remote tool runs without approval (MCPApprovalResolver of
-- agent-harness/src/agent_harness/mcp/approval_policy.py before PermissionEngine.evaluate).
use general_agent_design.Common.{◌≡◌, sym, ap, ◌∙◌, true, false, List, [], arith}
use general_agent_design.Domain.Errors.{ok}
use general_agent_design.Domain.Json.{Arguments}
use general_agent_design.Domain.Tools.{ToolDefinition}
use general_agent_design.Security.Models.{
  allow, Principal, SandboxPolicy, PermissionEvaluation, Host,
}
use general_agent_design.Security.Engine.{
  evaluate, evaluate_paths, by_rules, by_profile, result, matching_rules, evaluate_mcp_policy,
  default_decision,
}
use general_agent_design.Security.Rules.{PermissionRule, resolve_rule_decision}
use general_agent_design.Mcp.Outcome.{Outcome, good, bad, ◌>>=◌, >>=-good}
use general_agent_design.Mcp.Models.{McpServerConfig, McpToolRecord}
use general_agent_design.Mcp.Config.{is_project}
use general_agent_design.Mcp.Approval.{
  McpApprovalMode, inherit, always, writes, never, McpApprovalDecision, mode_of, configured, decide,
  is_safe_read, resolve_approval, adapted, adapter,
}

-- The ways in which a remote tool goes without approval: the mode waives it, the annotations of a
-- trusted server do, or the host's own policy decides about a server that is not a project's.
pub data IsWaived (server : McpServerConfig) (tool : McpToolRecord) : McpApprovalMode → Type 0 where
  waived : IsWaived server tool never
  safe_read : is_safe_read server tool ≡ true → IsWaived server tool writes
  inherited : is_project server.scope ≡ false → IsWaived server tool inherit

-- Without rules that match, what is allowed is allowed by the profile.
allow-by_profile :
    (h : Host) (rules : List PermissionRule) (principal : Principal) (tool : ToolDefinition)
    (arguments : Arguments) (policy : SandboxPolicy) (v : PermissionEvaluation)
    → matching_rules h rules principal tool.name arguments ≡ []
    → evaluate h rules principal tool arguments policy ≡ ok v
    → v.decision ≡ allow
    → (by_profile principal tool policy).decision ≡ allow
unfolding evaluate evaluate_paths by_rules resolve_rule_decision result by_profile
allow-by_profile h rules principal tool arguments policy v n e d = ground (arith, n, e, d)

by_mode :
    (server : McpServerConfig) (remote : McpToolRecord) (principal : Principal)
    (policy : SandboxPolicy) (mode : McpApprovalMode)
    → (by_profile principal (adapted server remote (decide server remote mode)) policy).decision
      ≡ allow
    → IsWaived server remote mode
unfolding by_profile result evaluate_mcp_policy default_decision
by_mode server remote principal policy never h = waived
by_mode server remote principal policy always h = absurd (ground arith)
by_mode server remote principal policy writes h = safe_read (ground arith)
by_mode server remote principal policy inherit h = inherited (ground arith)

adapter-inverted :
    (server : McpServerConfig) (remote : McpToolRecord) (tool : ToolDefinition)
    → adapter server remote ≡ good tool
    → (mode : McpApprovalMode) × (mode_of (configured server remote) ≡ good mode)
      × (adapted server remote (decide server remote mode) ≡ tool)
unfolding adapter resolve_approval
adapter-inverted server remote tool h =
    let x : (a : McpApprovalDecision) × (resolve_approval server remote ≡ good a)
        × (good (adapted server remote a) ≡ good tool) =
      >>=-good (resolve_approval server remote) (λ a. good (adapted server remote a)) h in
    let y : (m : McpApprovalMode) × (mode_of (configured server remote) ≡ good m)
        × (good (decide server remote m) ≡ good x.0) =
      >>=-good (mode_of (configured server remote)) (λ m. good (decide server remote m)) x.1 in
    (y.0, y.1, same_good (ap (λ m. m >>= λ a. good (adapted server remote a)) y.2 ∙ x.2))
  where
    value : Outcome ToolDefinition → ToolDefinition
    value (good t) = t
    value (bad e) = tool

    same_good : {s t : ToolDefinition} → good s ≡ good t → s ≡ t
    same_good e = ap value e

-- A remote tool that the permission engine allows although no rule matches goes without approval in
-- one of three ways: its mode is `never`; its mode is `writes` and a trusted server says that it only
-- reads; or its mode is `inherit` and the server is not a project's.
pub adapter-IsWaived :
    (h : Host) (rules : List PermissionRule) (principal : Principal) (server : McpServerConfig)
    (remote : McpToolRecord) (tool : ToolDefinition) (arguments : Arguments)
    (policy : SandboxPolicy) (v : PermissionEvaluation)
    → adapter server remote ≡ good tool
    → matching_rules h rules principal tool.name arguments ≡ []
    → evaluate h rules principal tool arguments policy ≡ ok v
    → v.decision ≡ allow
    → (mode : McpApprovalMode) × (mode_of (configured server remote) ≡ good mode)
      × IsWaived server remote mode
adapter-IsWaived h rules principal server remote tool arguments policy v a n e d =
    let (mode, m, t) = adapter-inverted server remote tool a in
    let allowed : (by_profile principal tool policy).decision ≡ allow =
      allow-by_profile h rules principal tool arguments policy v n e d in
    (
      mode,
      m,
      by_mode server remote principal policy mode
          (coe 0 1 (i. (by_profile principal (sym t i) policy).decision ≡ allow) allowed),
    )
