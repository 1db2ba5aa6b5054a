-- ===== src/Security/Approval.antt =====
-- The approvals of agent-harness/src/agent_harness/security/approval.py, the table of them in
-- agent-harness/src/agent_harness/checkpoints/store.py, and _authorize_or_approve of
-- agent-harness/src/agent_harness/tools/runtime.py. Parameters: the digest behind
-- stable_approval_id, and the handler that asks the user. The boundary callback, which the recovery
-- tests use, and the display fields of a request are left out.
pub mod Outcomes
use general_agent_design.Common.{
  String, Bool, true, false, not, ◌&&◌, ◌||◌, Option, none, some, List, [], ◌∷◌, ◌++◌, contains,
  if◌then◌else◌,
}
use general_agent_design.Common.Dict.{Dict, lookup, insert}
use general_agent_design.Domain.Errors.{
  Exception, cancelled, Result, ok, err, fail, tool_authorization,
}
use general_agent_design.Domain.Json.{Arguments}
use general_agent_design.Domain.Tools.{Capability, RiskLevel, ToolDefinition}
use general_agent_design.Security.Models.{
  ApprovalPolicy, never, PermissionDecision, allow, ask, deny, is_ask, Principal, Reason,
  reason_text, Host,
}
use general_agent_design.Security.Grants.{Digest, GrantStore, grant_turn, grant_thread, allows}

pub data ApprovalDecision : Type 0 where
  allow_once allow_turn allow_thread deny_once cancel_turn : ApprovalDecision

pub record ApprovalRequest : Type 0 where
  pub principal : Principal
  pub tool_call_id : String
  pub tool_name : String
  pub reason : Reason
  pub risk_level : RiskLevel
  pub requested_capabilities : List Capability
  pub approval_id : String

-- A row of pending_approvals; `decision` is there exactly in the state "decided".
pub data ApprovalRow : Type 0 where
  pending : ApprovalRow
  decided : ApprovalDecision → ApprovalRow

-- The events of ToolRuntime._emit, by the tool call's identifier and what is read of the rest.
pub data AuditEvent : Type 0 where
  permission_denied : String → Reason → AuditEvent
  approval_requested : String → AuditEvent
  approval_decided : String → ApprovalDecision → AuditEvent
  permission_evaluated : String → PermissionDecision → Reason → AuditEvent
  hook_started hook_completed : String → String → AuditEvent
  sandbox_started command_started command_completed : String → AuditEvent
  sandbox_completed sandbox_failed file_changed : String → AuditEvent
  artifact_created : String → String → AuditEvent

-- The part of a ToolRuntime that approvals read and write; `checkpoints` is the table, if a
-- checkpoint store is configured.
pub record Gate : Type 0 where
  pub grants : GrantStore
  pub executed_approvals : List String
  pub checkpoints : Option (Dict ApprovalRow)
  pub audit : List AuditEvent

-- CheckpointStore.approval_decision
abbrev committed : Option ApprovalRow → Option ApprovalDecision
committed (some (decided d)) = some d
committed _ = none

unfoldable pub approval_decision : Option (Dict ApprovalRow) → String → Option ApprovalDecision
approval_decision none approval_id = none
approval_decision (some rows) approval_id = committed (lookup approval_id rows)

-- CheckpointStore.save_approval
unfoldable pub save_approval :
    String → ApprovalRow → Option (Dict ApprovalRow) → Option (Dict ApprovalRow)
save_approval approval_id row none = none
save_approval approval_id row (some rows) = some (insert approval_id row rows)

-- audit events, oldest first
abbrev pub emit : AuditEvent → Gate → Gate
emit e s = record s { audit = s.audit ++ e ∷ [] }

abbrev pub is_never : ApprovalPolicy → Bool
is_never never = true
is_never _ = false

-- ApprovalHandler.request; a handler may be cancelled or fail.
abbrev pub Handler : Type 0
Handler = ApprovalRequest → Result ApprovalDecision

abbrev pub request_for :
    (Principal → String → Arguments → String)
    → ToolDefinition
    → String
    → Arguments
    → Principal
    → Reason
    → ApprovalRequest
request_for stable_id tool call_id arguments principal reason = record {
  principal = principal;
  tool_call_id = call_id;
  tool_name = tool.name;
  reason = reason;
  risk_level = tool.risk_level;
  requested_capabilities = tool.required_capabilities;
  approval_id = stable_id principal call_id arguments;
}

abbrev pub answered : String → Result ApprovalDecision → Gate → Result ApprovalDecision × Gate
answered approval_id (err e) s = (err e, s)
answered approval_id (ok d) s =
    (ok d, record s { checkpoints = save_approval approval_id (decided d) s.checkpoints })

-- The decision on a request: the committed one, or the handler's, which is committed before use.
unfoldable pub decide_request : Handler → ApprovalRequest → Gate → Result ApprovalDecision × Gate
decide_request ask_user request s = elim (approval_decision s.checkpoints request.approval_id) [
  | some previous ↦ (ok previous, s)
  | none ↦
      answered request.approval_id (ask_user request)
        (record s { checkpoints = save_approval request.approval_id pending s.checkpoints })
]

module _ (h : Host) (g : Digest) where
  unfoldable pub apply_grant : Principal → String → Arguments → ApprovalDecision → Gate → Gate
  apply_grant principal tool_name arguments allow_turn s = record s {
    grants = grant_turn h g s.grants principal tool_name arguments;
  }
  apply_grant principal tool_name arguments allow_thread s = record s {
    grants = grant_thread h g s.grants principal tool_name arguments;
  }
  apply_grant principal tool_name arguments d s = s

  -- What follows "approval.decided".
  unfoldable pub settle :
      Principal → String → Arguments → String → ApprovalDecision → Gate → Result (Unit {0}) × Gate
  settle principal tool_name arguments approval_id cancel_turn s = (err cancelled, s)
  settle principal tool_name arguments approval_id deny_once s =
      (fail tool_authorization "User denied tool approval", s)
  settle principal tool_name arguments approval_id d s =
      if contains approval_id s.executed_approvals
      then (fail tool_authorization "Approval has already been consumed", s)
      else (
        ok tt,
        apply_grant principal tool_name arguments d
            (record s { executed_approvals = approval_id ∷ s.executed_approvals }),
      )

  abbrev pub settled :
      Principal
      → String
      → Arguments
      → String
      → Result ApprovalDecision × Gate
      → Result (Unit {0}) × Gate
  settled principal tool_name arguments approval_id (err e, s) = (err e, s)
  settled principal tool_name arguments approval_id (ok d, s) =
      settle principal tool_name arguments approval_id d (emit (approval_decided approval_id d) s)

module _ (h : Host) (g : Digest) (stable_id : Principal → String → Arguments → String)
    (ask_user : Handler) where
  unfoldable pub ask_for_approval :
      ToolDefinition → String → Arguments → Principal → Reason → Gate → Result (Unit {0}) × Gate
  ask_for_approval tool call_id arguments principal reason s =
      let request = request_for stable_id tool call_id arguments principal reason in
      settled h g principal tool.name arguments request.approval_id
        (decide_request ask_user request (emit (approval_requested request.approval_id) s))

  -- ToolRuntime._authorize_or_approve
  unfoldable pub authorize_or_approve :
      ToolDefinition
      → String
      → Arguments
      → Principal
      → PermissionDecision
      → Reason
      → Gate
      → Result (Unit {0}) × Gate
  authorize_or_approve tool call_id arguments principal deny reason s =
      (fail tool_authorization (reason_text h reason), emit (permission_denied call_id reason) s)
  authorize_or_approve tool call_id arguments principal allow reason s = (ok tt, s)
  authorize_or_approve tool call_id arguments principal ask reason s =
      if allows h g s.grants principal tool.name arguments
      then (ok tt, s)
      else if is_never principal.approval_policy
      then (fail tool_authorization "Approval policy never rejects ASK decisions", s)
      else ask_for_approval tool call_id arguments principal reason s
