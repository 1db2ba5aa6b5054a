-- ===== src/Checkpoints/Recovery.antt =====
-- agent-harness/src/agent_harness/recovery/coordinator.py.
use general_agent_design.Common.{String, Option, some}
use general_agent_design.Agent.State.{
  ResumePoint, model_in_flight, waiting_approval, tool_in_flight, waiting_subagent, paused,
  recovery_required, terminal,
}
use general_agent_design.Checkpoints.Store.{CheckpointEnvelope}

-- ToolRecoveryPolicy of agent-harness/src/agent_harness/domain/tools.py
pub data ToolRecoveryPolicy : Type 0 where
  retry_safe verify_then_retry verify_then_synthesize : ToolRecoveryPolicy
  manual_reconciliation never_retry : ToolRecoveryPolicy

pub data RecoveryDisposition : Type 0 where
  continue retry synthesize wait_approval manual terminated : RecoveryDisposition

pub record RecoveryPlan : Type 0 where
  pub checkpoint_id : String
  pub disposition : RecoveryDisposition
  pub resume_point : ResumePoint
  pub reason : String

abbrev pub recover : CheckpointEnvelope → RecoveryDisposition → ResumePoint → String → RecoveryPlan
recover c d point reason = record {
  checkpoint_id = c.checkpoint_id;
  disposition = d;
  resume_point = point;
  reason = reason;
}

-- The branches on the point.
unfoldable pub plan_at : ResumePoint → CheckpointEnvelope → Option ToolRecoveryPolicy → RecoveryPlan
plan_at terminal c policy = recover c terminated terminal "turn already terminal"
plan_at waiting_approval c policy =
    recover c continue waiting_approval "resume the original call and stable approval identity"
plan_at waiting_subagent c policy =
    recover c manual waiting_subagent "boundary requires an explicit external decision"
plan_at paused c policy = recover c manual paused "boundary requires an explicit external decision"
plan_at recovery_required c policy =
    recover c manual recovery_required "boundary requires an explicit external decision"
plan_at tool_in_flight c (some retry_safe) =
    recover c retry tool_in_flight "read-only tool may create a new attempt"
plan_at tool_in_flight c (some verify_then_retry) =
    recover c manual tool_in_flight "tool postcondition must be reconciled first"
plan_at tool_in_flight c (some verify_then_synthesize) =
    recover c manual tool_in_flight "tool postcondition must be reconciled first"
plan_at tool_in_flight c policy =
    recover c manual recovery_required "unknown side effect must not be replayed"
plan_at model_in_flight c policy =
    recover c retry model_in_flight "model response was not committed"
plan_at point c policy = recover c continue point "resume from committed logical boundary"

-- RecoveryCoordinator.plan
unfoldable pub plan : CheckpointEnvelope → Option ToolRecoveryPolicy → RecoveryPlan
unfolding plan_at
plan c policy = plan_at c.resume_point c policy
