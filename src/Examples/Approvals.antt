-- ===== src/Examples/Approvals.antt =====
-- One call that needs approval, and its grants.
use general_agent_design.Common.{String, ◌≡◌, ◌≢◌, ◌⊎◌, refl, true, some, [], ◌∷◌}
use general_agent_design.Common.Dict.{lookup, insert}
use general_agent_design.Domain.Errors.{ok}
use general_agent_design.Domain.Json.{Arguments}
use general_agent_design.Security.Models.{never, ask, Principal, profile_default}
use general_agent_design.Security.Grants.{Digest, no_grants, key, targets, allows}
use general_agent_design.Security.Approval.{
  allow_once, decided, Gate, Handler, approval_requested, approval_decided, request_for,
  approval_decision, save_approval, decide_request, apply_grant, settle, ask_for_approval,
  authorize_or_approve,
}
use general_agent_design.Security.Approval.Outcomes.{IsApproved, authorize_or_approve-ask}
use general_agent_design.Examples.Hosts.{host, principal, tool, at_path}

abbrev pub digest : Digest
digest = record { fingerprint = λ a. "f"; sorted = λ xs. xs }

abbrev pub stable_id : Principal → String → Arguments → String
stable_id p c a = "approval_1"

abbrev pub says_yes : Handler
says_yes r = ok allow_once

abbrev pub gate : Gate
gate = record { grants = no_grants; executed_approvals = []; checkpoints = some []; audit = [] }

abbrev after_yes : Gate
after_yes = record {
  grants = no_grants;
  executed_approvals = "approval_1" ∷ [];
  checkpoints = some (("approval_1", decided allow_once) ∷ []);
  audit = approval_requested "approval_1" ∷ approval_decided "approval_1" allow_once ∷ [];
}

goes_on :
    authorize_or_approve host digest stable_id says_yes tool "c1"
      (at_path "a.txt")
      principal
      ask
      profile_default
      gate
    ≡ (ok tt, after_yes)
unfolding authorize_or_approve ask_for_approval decide_request approval_decision save_approval
    settle apply_grant allows key targets lookup insert
goes_on = refl

authorize_or_approve-ask_example :
    (allows host digest gate.grants principal tool.name (at_path "a.txt") ≡ true)
    ⊎ ((principal.approval_policy ≢ never)
        × IsApproved stable_id says_yes
            (request_for stable_id tool "c1" (at_path "a.txt") principal profile_default)
            gate
            after_yes)
authorize_or_approve-ask_example =
    authorize_or_approve-ask host digest stable_id says_yes tool "c1" (at_path "a.txt") principal
      profile_default gate after_yes goes_on
