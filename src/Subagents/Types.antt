-- ===== src/Subagents/Types.antt =====
-- agent-harness/src/agent_harness/domain/subagents.py, with the fields of an AgentDefinition
-- (agent-harness/src/agent_harness/domain/agent.py) that the scheduler reads. Timestamps, usage and
-- the message history of a thread are left out.
use general_agent_design.Common.{ℕ, String, Bool, true, false, Option, List}
use general_agent_design.Domain.Errors.{RunError}
use general_agent_design.Runtime.Budgets.{RunLimits}

pub data AgentThreadStatus : Type 0 where
  created queued running idle cancelling cancelled failed closed : AgentThreadStatus

pub record AgentDefinition : Type 0 where
  pub name : String
  pub limits : RunLimits
  pub can_spawn_subagents : Bool
  pub max_depth : ℕ

-- The envelope of a result: its summary stands for all that the child submitted.
pub record SubagentResult : Type 0 where
  pub agent_id : String
  pub agent_name : String
  pub summary : String

pub record AgentThreadState : Type 0 where
  pub agent_definition_name : String
  pub depth : ℕ
  pub task : String
  pub status : AgentThreadStatus
  pub turn_count : ℕ
  pub mailbox : List String
  pub last_result : Option SubagentResult
  pub error : Option RunError

pub record DelegationRequest : Type 0 where
  pub agent_name : String
  pub task : String
  pub idempotency_key : Option String

-- A child that can still consume work: the set in close, active_agent_ids.
abbrev pub is_active : AgentThreadStatus → Bool
is_active created = true
is_active queued = true
is_active running = true
is_active cancelling = true
is_active _ = false

-- The set in _is_done.
abbrev pub is_settled : AgentThreadStatus → Bool
is_settled idle = true
is_settled failed = true
is_settled cancelled = true
is_settled closed = true
is_settled _ = false

-- The set in cancel and send_message.
abbrev pub is_over : AgentThreadStatus → Bool
is_over cancelled = true
is_over failed = true
is_over closed = true
is_over _ = false
