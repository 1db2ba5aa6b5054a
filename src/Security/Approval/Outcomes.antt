-- ===== src/Security/Approval/Outcomes.antt =====
-- The outcomes of ToolRuntime._authorize_or_approve (tools/runtime.py).
use general_agent_design.Common.{
  String, ◌≡◌, ◌≢◌, refl, sym, ap, ◌∙◌, false≢true, Bool-cases, ◌⊎◌, inl, inr, Bool, true, false,
  Option, some, none, contains, if◌then◌else◌, eq_refl, arith,
}
use general_agent_design.Common.Dict.{Dict, insert, lookup-insert}
use general_agent_design.Domain.Errors.{Result, ok, err, fail, tool_authorization}
use general_agent_design.Domain.Json.{Arguments}
use general_agent_design.Domain.Tools.{ToolDefinition}
use general_agent_design.Security.Models.{
  never, PermissionDecision, allow, ask, deny, Principal, Reason, Host,
}
use general_agent_design.Security.Grants.{Digest, allows}
use general_agent_design.Security.Approval.{
  ApprovalRequest, ApprovalDecision, allow_once, allow_turn, allow_thread, ApprovalRow, pending,
  decided, Gate, Handler, emit, approval_requested, approval_decided, is_never, settled,
  approval_decision, save_approval, request_for, apply_grant, settle, decide_request,
  ask_for_approval, authorize_or_approve,
}

-- The decisions that let a call go on.
abbrev pub permits : ApprovalDecision → Bool
permits allow_once = true
permits allow_turn = true
permits allow_thread = true
permits _ = false

-- A committed decision, or else the user's answer.
abbrev pub verdict : Option ApprovalDecision → Result ApprovalDecision → Result ApprovalDecision
verdict (some d) r = ok d
verdict none r = r

decide_request-ok :
    (ask_user : Handler) (request : ApprovalRequest) (s t : Gate) (d : ApprovalDecision)
    → decide_request ask_user request s ≡ (ok d, t)
    → (verdict (approval_decision s.checkpoints request.approval_id) (ask_user request) ≡ ok d)
      × (t.executed_approvals ≡ s.executed_approvals)
unfolding decide_request
decide_request-ok ask_user request s t d e = ground arith

decide_request_replay :
    (ask_user : Handler) (request : ApprovalRequest) (s : Gate) (d : ApprovalDecision)
    → approval_decision s.checkpoints request.approval_id ≡ some d
    → decide_request ask_user request s ≡ (ok d, s)
unfolding decide_request
decide_request_replay ask_user request s d e = rw (e, decide_request)

decide_request_durable :
    (ask_user : Handler) (request : ApprovalRequest) (s : Gate) (rows : Dict ApprovalRow)
    (d : ApprovalDecision)
    → s.checkpoints ≡ some rows
    → approval_decision s.checkpoints request.approval_id ≡ none
    → ask_user request ≡ ok d
    → ((decide_request ask_user request s).0 ≡ ok d)
      × (approval_decision (decide_request ask_user request s).1.checkpoints request.approval_id
          ≡ some d)
unfolding decide_request approval_decision save_approval
decide_request_durable ask_user request s rows d c n e = ground (
  arith,
  eq_refl request.approval_id,
  lookup-insert request.approval_id request.approval_id (decided d)
      (insert request.approval_id pending rows),
)

module _ (h : Host) (g : Digest) where
  settle-ok :
      (principal : Principal) (tool_name : String) (arguments : Arguments) (approval_id : String)
      (d : ApprovalDecision) (s t : Gate)
      → settle h g principal tool_name arguments approval_id d s ≡ (ok tt, t)
      → (permits d ≡ true)
        × (contains approval_id s.executed_approvals ≡ false)
        × (contains approval_id t.executed_approvals ≡ true)
  unfolding settle apply_grant
  settle-ok principal tool_name arguments approval_id d s t e = ground (arith, eq_refl approval_id)

  settled-ok :
      (principal : Principal) (tool_name : String) (arguments : Arguments) (approval_id : String)
      (r : Result ApprovalDecision × Gate) (t : Gate)
      → settled h g principal tool_name arguments approval_id r ≡ (ok tt, t)
      → (d : ApprovalDecision) × (u : Gate) × (r ≡ (ok d, u))
        × (settle h g principal tool_name arguments approval_id d
              (emit (approval_decided approval_id d) u)
            ≡ (ok tt, t))
  settled-ok principal tool_name arguments approval_id (err x, u) t e = cc
  settled-ok principal tool_name arguments approval_id (ok d, u) t e = (d, u, refl, e)

  checkpoints-settled :
      (principal : Principal) (tool_name : String) (arguments : Arguments) (approval_id : String)
      (r : Result ApprovalDecision × Gate)
      → (settled h g principal tool_name arguments approval_id r).1.checkpoints ≡ r.1.checkpoints
  unfolding settle apply_grant
  checkpoints-settled principal tool_name arguments approval_id (err x, u) = refl
  checkpoints-settled principal tool_name arguments approval_id (ok d, u) = ground arith

-- What an approval that lets a call go on is: the user may be asked, the committed or given answer
-- permits the call, and the approval was not consumed before and is consumed now.
pub record IsApproved (stable_id : Principal → String → Arguments → String) (ask_user : Handler)
    (request : ApprovalRequest) (s t : Gate) : Type 0 where
  pub decision : ApprovalDecision
  pub answered :
      verdict (approval_decision s.checkpoints request.approval_id) (ask_user request) ≡ ok decision
  pub permitted : permits decision ≡ true
  pub fresh : contains request.approval_id s.executed_approvals ≡ false
  pub consumed : contains request.approval_id t.executed_approvals ≡ true

module _ (h : Host) (g : Digest) (stable_id : Principal → String → Arguments → String)
    (ask_user : Handler) (tool : ToolDefinition) (call_id : String) (arguments : Arguments)
    (principal : Principal) (reason : Reason) (s : Gate) where
  ask_for_approval-IsApproved :
      (t : Gate)
      → ask_for_approval h g stable_id ask_user tool call_id arguments principal reason s
        ≡ (ok tt, t)
      → IsApproved stable_id ask_user
          (request_for stable_id tool call_id arguments principal reason)
          s
          t
  unfolding ask_for_approval
  ask_for_approval-IsApproved t e =
      let request : ApprovalRequest =
        request_for stable_id tool call_id arguments principal reason in
      let start : Gate = emit (approval_requested request.approval_id) s in
      let r : Result ApprovalDecision × Gate = decide_request ask_user request start in
      let (d, u, er, es) = settled-ok h g principal tool.name arguments request.approval_id r t e in
      let (verdict_ok, kept) = decide_request-ok ask_user request start u d er in
      let (permitted, fresh, consumed) =
        settle-ok h g principal tool.name arguments request.approval_id d
          (emit (approval_decided request.approval_id d) u) t es in
      record {
        decision = d;
        answered = verdict_ok;
        permitted = permitted;
        fresh = ap (contains request.approval_id) (sym kept) ∙ fresh;
        consumed = consumed;
      }

  -- A call that needs approval goes on in two cases only: a grant covers it, or the policy lets the
  -- user be asked and the approval is one that permits, is new, and is consumed by this call.
  pub authorize_or_approve-ask :
      (t : Gate)
      → authorize_or_approve h g stable_id ask_user tool call_id arguments principal ask reason s
        ≡ (ok tt, t)
      → (allows h g s.grants principal tool.name arguments ≡ true)
        ⊎ ((principal.approval_policy ≢ never)
            × IsApproved stable_id ask_user
                (request_for stable_id tool call_id arguments principal reason)
                s
                t)
  unfolding authorize_or_approve
  authorize_or_approve-ask t e =
      elim (Bool-cases (allows h g s.grants principal tool.name arguments)) [
        | inl granted ↦ inl granted
        | inr other ↦ inr (ground arith, ask_for_approval-IsApproved t (ground arith))
      ]

  -- Without a grant, an approval that was consumed before lets no call through.
  pub authorize_or_approve_once :
      allows h g s.grants principal tool.name arguments ≡ false
      → contains (stable_id principal call_id arguments) s.executed_approvals ≡ true
      → (t : Gate)
      → authorize_or_approve h g stable_id ask_user tool call_id arguments principal ask reason s
        ≢ (ok tt, t)
  authorize_or_approve_once n c t e = elim (authorize_or_approve-ask t e) [
    | inl granted ↦ cc
    | inr (_, a) ↦ absurd (false≢true (sym a.fresh ∙ c))
  ]

  -- A committed decision is used again as it is: the user is not asked, so the outcome does not
  -- depend on the answer.
  authorize_or_approve_replay :
      (d : ApprovalDecision) (other : Handler) (decision : PermissionDecision)
      → approval_decision s.checkpoints (stable_id principal call_id arguments) ≡ some d
      → authorize_or_approve h g stable_id ask_user tool call_id arguments principal decision reason
          s
        ≡ authorize_or_approve h g stable_id other tool call_id arguments principal decision reason
            s
  unfolding authorize_or_approve ask_for_approval
  authorize_or_approve_replay d other allow e = refl
  authorize_or_approve_replay d other deny e = refl
  authorize_or_approve_replay d other ask e =
      let request : ApprovalRequest =
        request_for stable_id tool call_id arguments principal reason in
      let start : Gate = emit (approval_requested request.approval_id) s in
      let replayed : decide_request ask_user request start ≡ decide_request other request start =
        decide_request_replay ask_user request start d e
        ∙ sym (decide_request_replay other request start d e) in
      ap
        (λ r.
          if allows h g s.grants principal tool.name arguments
          then (ok tt, s)
          else if is_never principal.approval_policy
          then (fail tool_authorization "Approval policy never rejects ASK decisions", s)
          else settled h g principal tool.name arguments request.approval_id r)
        replayed

  -- The user's answer is committed before it takes effect: whatever it is, the table holds it after
  -- the call, and a replay finds it.
  ask_for_approval_durable :
      (rows : Dict ApprovalRow) (d : ApprovalDecision)
      → s.checkpoints ≡ some rows
      → approval_decision s.checkpoints (stable_id principal call_id arguments) ≡ none
      → ask_user (request_for stable_id tool call_id arguments principal reason) ≡ ok d
      → approval_decision
          (ask_for_approval h g stable_id ask_user tool call_id arguments principal reason
            s).1.checkpoints
          (stable_id principal call_id arguments)
        ≡ some d
  unfolding ask_for_approval
  ask_for_approval_durable rows d c n e =
      let request : ApprovalRequest =
        request_for stable_id tool call_id arguments principal reason in
      let start : Gate = emit (approval_requested request.approval_id) s in
      let (answer, row) = decide_request_durable ask_user request start rows d c n e in
      ap (λ (c : Option (Dict ApprovalRow)). approval_decision c request.approval_id)
        (checkpoints-settled h g principal tool.name arguments request.approval_id
          (decide_request ask_user request start))
      ∙ row
