-- ===== src/Checkpoints/Envelope.antt =====
-- CheckpointEnvelope of agent-harness/src/agent_harness/checkpoints/models.py, its JSON form, and
-- _checkpoint_from_dict of agent-harness/src/agent_harness/checkpoints/store.py. An object is the list of its
-- entries, whose order `sort_keys` may change and nothing reads.
use general_agent_design.Common.{
  ℕ, String, ◌≡◌, refl, Option, none, some, List, [], ◌∷◌, eqb, ◌==◌, if◌then◌else◌, not, true, ap,
  ◌∙◌,
}
use general_agent_design.Common.Dict.{Dict, lookup}
use general_agent_design.Domain.Errors.{Result, ok, err, value_error, ◌>>=◌}
use general_agent_design.Domain.Json.{Value, int, pos, text, array, dict}
use general_agent_design.Domain.Payload.{
  read_text, read_text_or, read_optional, write_optional, read-write_optional, read_nat, texts_of,
  write_texts, texts_of-write_texts, read_texts, dict_of, write_dict, dict_of-write_dict, read_dict,
  chained,
}
use general_agent_design.Agent.State.{
  ResumePoint, DurableTurnStatus, before_model, model_in_flight, after_model, waiting_approval,
  before_tool, tool_in_flight, after_tool, waiting_subagent, before_finalize, paused,
  recovery_required, terminal, turn_created, turn_running, turn_waiting_approval,
  turn_waiting_subagent, turn_paused, turn_recovering, turn_recovery_required, turn_completed,
  turn_failed, turn_cancelled, turn_interrupted,
}

pub record CheckpointEnvelope : Type 0 where
  pub schema_version : ℕ
  pub checkpoint_id : String
  pub session_id : String
  pub thread_id : String
  pub turn_id : String
  pub agent_id : String
  pub checkpoint_sequence : ℕ
  pub rollout_sequence : ℕ
  pub resume_point : ResumePoint
  pub turn_status : DurableTurnStatus
  pub runtime_version : String
  pub config_digest : String
  pub provider_name : String
  pub model_name : String
  pub serialized_state : Dict Value
  pub parent_agent_id : Option String
  pub child_thread_id : Option String
  pub pending_action_ids : List String
  pub pending_approval_ids : List String
  pub child_execution_ids : List String
  pub created_at : String
  pub payload_hash : String

-- The values of the enumerations, and the enumerations of a value
abbrev pub point_text : ResumePoint → String
point_text before_model = "before_model"
point_text model_in_flight = "model_in_flight"
point_text after_model = "after_model"
point_text waiting_approval = "waiting_approval"
point_text before_tool = "before_tool"
point_text tool_in_flight = "tool_in_flight"
point_text after_tool = "after_tool"
point_text waiting_subagent = "waiting_subagent"
point_text before_finalize = "before_finalize"
point_text paused = "paused"
point_text recovery_required = "recovery_required"
point_text terminal = "terminal"

abbrev pub status_text : DurableTurnStatus → String
status_text turn_created = "created"
status_text turn_running = "running"
status_text turn_waiting_approval = "waiting_approval"
status_text turn_waiting_subagent = "waiting_subagent"
status_text turn_paused = "paused"
status_text turn_recovering = "recovering"
status_text turn_recovery_required = "recovery_required"
status_text turn_completed = "completed"
status_text turn_failed = "failed"
status_text turn_cancelled = "cancelled"
status_text turn_interrupted = "interrupted"

abbrev pub point_of : String → Result ResumePoint
point_of s =
    if s == "before_model"
    then ok before_model
    else if s == "model_in_flight"
    then ok model_in_flight
    else if s == "after_model"
    then ok after_model
    else if s == "waiting_approval"
    then ok waiting_approval
    else if s == "before_tool"
    then ok before_tool
    else if s == "tool_in_flight"
    then ok tool_in_flight
    else if s == "after_tool"
    then ok after_tool
    else if s == "waiting_subagent"
    then ok waiting_subagent
    else if s == "before_finalize"
    then ok before_finalize
    else if s == "paused"
    then ok paused
    else if s == "recovery_required"
    then ok recovery_required
    else if s == "terminal"
    then ok terminal
    else err (value_error s)

abbrev pub status_of : String → Result DurableTurnStatus
status_of s =
    if s == "created"
    then ok turn_created
    else if s == "running"
    then ok turn_running
    else if s == "waiting_approval"
    then ok turn_waiting_approval
    else if s == "waiting_subagent"
    then ok turn_waiting_subagent
    else if s == "paused"
    then ok turn_paused
    else if s == "recovering"
    then ok turn_recovering
    else if s == "recovery_required"
    then ok turn_recovery_required
    else if s == "completed"
    then ok turn_completed
    else if s == "failed"
    then ok turn_failed
    else if s == "cancelled"
    then ok turn_cancelled
    else if s == "interrupted"
    then ok turn_interrupted
    else err (value_error s)

point_of-point_text : (p : ResumePoint) → point_of (point_text p) ≡ ok p
point_of-point_text before_model = refl
point_of-point_text model_in_flight = refl
point_of-point_text after_model = refl
point_of-point_text waiting_approval = refl
point_of-point_text before_tool = refl
point_of-point_text tool_in_flight = refl
point_of-point_text after_tool = refl
point_of-point_text waiting_subagent = refl
point_of-point_text before_finalize = refl
point_of-point_text paused = refl
point_of-point_text recovery_required = refl
point_of-point_text terminal = refl

status_of-status_text : (s : DurableTurnStatus) → status_of (status_text s) ≡ ok s
status_of-status_text turn_created = refl
status_of-status_text turn_running = refl
status_of-status_text turn_waiting_approval = refl
status_of-status_text turn_waiting_subagent = refl
status_of-status_text turn_paused = refl
status_of-status_text turn_recovering = refl
status_of-status_text turn_recovery_required = refl
status_of-status_text turn_completed = refl
status_of-status_text turn_failed = refl
status_of-status_text turn_cancelled = refl
status_of-status_text turn_interrupted = refl

-- to_jsonable of an envelope
unfoldable pub to_jsonable : CheckpointEnvelope → Dict Value
to_jsonable c =
    ("schema_version", int (pos c.schema_version))
    ∷ ("checkpoint_id", text c.checkpoint_id)
    ∷ ("session_id", text c.session_id)
    ∷ ("thread_id", text c.thread_id)
    ∷ ("turn_id", text c.turn_id)
    ∷ ("agent_id", text c.agent_id)
    ∷ ("checkpoint_sequence", int (pos c.checkpoint_sequence))
    ∷ ("rollout_sequence", int (pos c.rollout_sequence))
    ∷ ("resume_point", text (point_text c.resume_point))
    ∷ ("turn_status", text (status_text c.turn_status))
    ∷ ("runtime_version", text c.runtime_version)
    ∷ ("config_digest", text c.config_digest)
    ∷ ("provider_name", text c.provider_name)
    ∷ ("model_name", text c.model_name)
    ∷ ("serialized_state", dict (write_dict c.serialized_state))
    ∷ ("parent_agent_id", write_optional c.parent_agent_id)
    ∷ ("child_thread_id", write_optional c.child_thread_id)
    ∷ ("pending_action_ids", array (write_texts c.pending_action_ids))
    ∷ ("pending_approval_ids", array (write_texts c.pending_approval_ids))
    ∷ ("child_execution_ids", array (write_texts c.child_execution_ids))
    ∷ ("created_at", text c.created_at)
    ∷ ("payload_hash", text c.payload_hash)
    ∷ []

-- int(data.get("schema_version", 0)) of an integer
abbrev pub version_of : Option Value → Result ℕ
version_of none = ok 0
version_of (some v) = read_nat (some v)

-- The fields that are read with a conversion
pub record Converted : Type 0 where
  pub point : ResumePoint
  pub status : DurableTurnStatus
  pub actions : List String
  pub approvals : List String
  pub executions : List String
  pub state : Dict Value
  pub parent : Option String
  pub child : Option String

unfoldable pub convert : Dict Value → Result Converted
convert d = do
  point ← read_text (lookup "resume_point" d) >>= point_of
  status ← read_text (lookup "turn_status" d) >>= status_of
  actions ← read_texts (lookup "pending_action_ids" d)
  approvals ← read_texts (lookup "pending_approval_ids" d)
  executions ← read_texts (lookup "child_execution_ids" d)
  state ← read_dict (lookup "serialized_state" d)
  parent ← read_optional (lookup "parent_agent_id" d)
  child ← read_optional (lookup "child_thread_id" d)
  ok (record {
    point = point;
    status = status;
    actions = actions;
    approvals = approvals;
    executions = executions;
    state = state;
    parent = parent;
    child = child;
  })

-- CheckpointEnvelope(**values)
unfoldable pub fill : ℕ → Converted → Dict Value → Result CheckpointEnvelope
fill version v d = do
  checkpoint_id ← read_text (lookup "checkpoint_id" d)
  session_id ← read_text (lookup "session_id" d)
  thread_id ← read_text (lookup "thread_id" d)
  turn_id ← read_text (lookup "turn_id" d)
  agent_id ← read_text (lookup "agent_id" d)
  checkpoint_sequence ← read_nat (lookup "checkpoint_sequence" d)
  rollout_sequence ← read_nat (lookup "rollout_sequence" d)
  runtime_version ← read_text (lookup "runtime_version" d)
  config_digest ← read_text (lookup "config_digest" d)
  provider_name ← read_text (lookup "provider_name" d)
  model_name ← read_text (lookup "model_name" d)
  created_at ← read_text_or "" (lookup "created_at" d)
  payload_hash ← read_text_or "" (lookup "payload_hash" d)
  ok (record {
    schema_version = version;
    checkpoint_id = checkpoint_id;
    session_id = session_id;
    thread_id = thread_id;
    turn_id = turn_id;
    agent_id = agent_id;
    checkpoint_sequence = checkpoint_sequence;
    rollout_sequence = rollout_sequence;
    resume_point = v.point;
    turn_status = v.status;
    runtime_version = runtime_version;
    config_digest = config_digest;
    provider_name = provider_name;
    model_name = model_name;
    serialized_state = v.state;
    parent_agent_id = v.parent;
    child_thread_id = v.child;
    pending_action_ids = v.actions;
    pending_approval_ids = v.approvals;
    child_execution_ids = v.executions;
    created_at = created_at;
    payload_hash = payload_hash;
  })

abbrev pub check_version : Dict Value → ℕ → Result CheckpointEnvelope
check_version d version =
    if not (eqb version 1)
    then err (value_error "Unsupported checkpoint schema")
    else convert d >>= λ v. fill version v d

-- _checkpoint_from_dict
unfoldable pub checkpoint_from_dict : Dict Value → Result CheckpointEnvelope
checkpoint_from_dict d = version_of (lookup "schema_version" d) >>= check_version d

abbrev converted : CheckpointEnvelope → Converted
converted c = record {
  point = c.resume_point;
  status = c.turn_status;
  actions = c.pending_action_ids;
  approvals = c.pending_approval_ids;
  executions = c.child_execution_ids;
  state = c.serialized_state;
  parent = c.parent_agent_id;
  child = c.child_thread_id;
}

convert-to_jsonable : (c : CheckpointEnvelope) → convert (to_jsonable c) ≡ ok (converted c)
unfolding convert to_jsonable lookup
convert-to_jsonable c =
    chained (point_of (point_text c.resume_point)) c.resume_point _ _
      (point_of-point_text c.resume_point)
      (chained (status_of (status_text c.turn_status)) c.turn_status _ _
        (status_of-status_text c.turn_status)
        (chained (texts_of (write_texts c.pending_action_ids)) c.pending_action_ids _ _
          (texts_of-write_texts c.pending_action_ids)
          (chained (texts_of (write_texts c.pending_approval_ids)) c.pending_approval_ids _ _
            (texts_of-write_texts c.pending_approval_ids)
            (chained (texts_of (write_texts c.child_execution_ids)) c.child_execution_ids _ _
              (texts_of-write_texts c.child_execution_ids)
              (chained (ok (dict_of (write_dict c.serialized_state))) c.serialized_state
                (λ s. read_optional (some (write_optional c.parent_agent_id)) >>= λ p.
                  read_optional (some (write_optional c.child_thread_id)) >>= λ q.
                  ok (record (converted c) { state = s; parent = p; child = q }))
                _ (ap (λ d. ok d) (dict_of-write_dict c.serialized_state))
                (chained (read_optional (some (write_optional c.parent_agent_id))) c.parent_agent_id
                  (λ p. read_optional (some (write_optional c.child_thread_id)) >>= λ q.
                    ok (record (converted c) { parent = p; child = q }))
                  _ (read-write_optional c.parent_agent_id)
                  (chained (read_optional (some (write_optional c.child_thread_id)))
                    c.child_thread_id (λ q. ok (record (converted c) { child = q })) _
                    (read-write_optional c.child_thread_id) refl)))))))

fill-to_jsonable :
    (c : CheckpointEnvelope) → fill c.schema_version (converted c) (to_jsonable c) ≡ ok c
unfolding fill to_jsonable lookup
fill-to_jsonable c = refl

-- Reading back what was written gives the envelope, where it has the version that is read.
pub checkpoint_from_dict-to_jsonable :
    (c : CheckpointEnvelope)
    → eqb c.schema_version 1 ≡ true
    → checkpoint_from_dict (to_jsonable c) ≡ ok c
unfolding checkpoint_from_dict to_jsonable lookup
checkpoint_from_dict-to_jsonable c v =
    ap
      (λ b.
        if not b
        then err (value_error "Unsupported checkpoint schema")
        else convert (to_jsonable c) >>= λ w. fill c.schema_version w (to_jsonable c))
      v
    ∙ chained (convert (to_jsonable c)) (converted c) (λ w. fill c.schema_version w (to_jsonable c))
        (ok c) (convert-to_jsonable c) (fill-to_jsonable c)
