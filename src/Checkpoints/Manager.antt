-- ===== src/Checkpoints/Manager.antt =====
-- agent-harness/src/agent_harness/checkpoints/manager.py. The digest of the configuration, new
-- identifiers, the time and the serialised state are given.
use general_agent_design.Common.{
  ℕ, suc, String, not, Option, none, some, List, [], ◌==◌, if◌then◌else◌,
}
use general_agent_design.Common.Dict.{Dict}
use general_agent_design.Domain.Errors.{Result, ok, err, value_error}
use general_agent_design.Domain.Json.{Value}
use general_agent_design.Agent.State.{ResumePoint, DurableTurnStatus}
use general_agent_design.Security.Models.{given}
use general_agent_design.Checkpoints.Store.{
  CheckpointEnvelope, CheckpointStore, save as save_in, latest,
}

pub record CheckpointManager : Type 0 where
  pub thread_id : String
  pub provider_name : String
  pub model_name : String
  pub config_digest : String
  pub runtime_version : String
  pub sequence : ℕ

-- What is read of the RunState, with the serialised state.
pub record Saved : Type 0 where
  pub turn_id : Option String
  pub agent_name : String
  pub serialized : Dict Value

abbrev pub or_empty : Option String → String
or_empty none = ""
or_empty (some s) = s

module _ (digest : CheckpointEnvelope → String) (config : String → String → String) where
  -- The envelope of CheckpointManager.save, at the sequence number.
  unfoldable pub envelope :
      CheckpointManager
      → ℕ
      → Saved
      → ResumePoint
      → DurableTurnStatus
      → List String
      → String
      → String
      → CheckpointEnvelope
  envelope m n state point status pending new_id now = record {
    schema_version = 1;
    checkpoint_id = new_id;
    session_id = m.thread_id;
    thread_id = m.thread_id;
    turn_id = or_empty state.turn_id;
    agent_id = state.agent_name;
    checkpoint_sequence = n;
    rollout_sequence = 0;
    resume_point = point;
    turn_status = status;
    runtime_version = m.runtime_version;
    config_digest =
        if m.config_digest == "" then config m.provider_name m.model_name else m.config_digest;
    provider_name = m.provider_name;
    model_name = m.model_name;
    serialized_state = state.serialized;
    parent_agent_id = none;
    child_thread_id = none;
    pending_action_ids = pending;
    pending_approval_ids = [];
    child_execution_ids = [];
    created_at = now;
    payload_hash = "";
  }

  -- CheckpointManager.save; the sequence number is used up even where the store raises.
  unfoldable pub save :
      Saved
      → ResumePoint
      → DurableTurnStatus
      → List String
      → String
      → String
      → CheckpointManager × CheckpointStore
      → Result CheckpointEnvelope × CheckpointManager × CheckpointStore
  unfolding envelope
  save state point status pending new_id now (m, s) =
      if not (given state.turn_id)
      then (err (value_error "Cannot checkpoint a state without turn_id"), m, s)
      else let r =
          save_in digest (envelope m (suc m.sequence) state point status pending new_id now) [] s in
        (r.0, record m { sequence = suc m.sequence }, r.1)

  abbrev pub sequence_of : Option CheckpointEnvelope → ℕ
  sequence_of none = 0
  sequence_of (some c) = c.checkpoint_sequence

  abbrev pub resumed :
      Result (Option CheckpointEnvelope) → CheckpointManager → Result (Unit {0}) × CheckpointManager
  resumed (ok c) m = (ok tt, record m { sequence = sequence_of c })
  resumed (err x) m = (err x, m)

  -- CheckpointManager.resume_sequence
  unfoldable pub resume_sequence :
      String → CheckpointManager × CheckpointStore → Result (Unit {0}) × CheckpointManager
  resume_sequence turn_id (m, s) = resumed (latest digest m.thread_id (some turn_id) s) m
