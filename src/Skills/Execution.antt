-- ===== src/Skills/Execution.antt =====
-- agent-harness/src/agent_harness/skills/execution.py. The registry is its list of executions, the
-- oldest first; a set of tool names is a list. The identifier of an execution is an argument of `start`.
pub mod Scope
use general_agent_design.Common.{
  String, Bool, true, false, not, ◌&&◌, Option, none, List, [], ◌∷◌, ◌++◌, map, ◌==◌, contains,
  select, if◌then◌else◌,
}
use general_agent_design.Domain.Json.{Value}
use general_agent_design.Skills.Models.{SkillActivationSnapshot}

pub data SkillExecutionStatus : Type 0 where
  active completed failed cancelled : SkillExecutionStatus

pub record SkillExecution : Type 0 where
  pub execution_id : String
  pub activation_id : String
  pub invocation_source : String
  pub root_turn_id : String
  pub agent_id : String
  pub context_mode : String
  pub effective_tools : List String
  pub child_agent_id : Option String
  pub status : SkillExecutionStatus
  pub result : Option Value
  pub error : Option String

pub record SkillExecutionRegistry : Type 0 where
  pub executions : List SkillExecution

abbrev pub is_active : SkillExecutionStatus → Bool
is_active active = true
is_active _ = false

abbrev pub is_empty : List String → Bool
is_empty [] = true
is_empty (_ ∷ _) = false

abbrev pub started : String → SkillActivationSnapshot → String → String → String → SkillExecution
started new_id activation source turn_id agent_id = record {
  execution_id = new_id;
  activation_id = activation.activation_id;
  invocation_source = source;
  root_turn_id = turn_id;
  agent_id = agent_id;
  context_mode = activation.context_mode;
  effective_tools = activation.allowed_tools;
  child_agent_id = none;
  status = active;
  result = none;
  error = none;
}

-- SkillExecutionRegistry.start
unfoldable pub start :
    String
    → SkillActivationSnapshot
    → String
    → String
    → String
    → SkillExecutionRegistry
    → SkillExecution × SkillExecutionRegistry
start new_id activation source turn_id agent_id s =
    let execution : SkillExecution = started new_id activation source turn_id agent_id in
    (execution, record { executions = s.executions ++ (execution ∷ []) })

-- The test under which an execution narrows the tools of an agent in a turn.
abbrev pub narrows : String → String → SkillExecution → Bool
narrows turn_id agent_id e =
    is_active e.status
    && (e.context_mode == "inline"
        && (e.root_turn_id == turn_id
            && (e.agent_id == agent_id && not (is_empty e.effective_tools))))

-- allowed.intersection_update(tools)
abbrev pub intersection : List String → List String → List String
intersection tools allowed = select (λ n. contains n tools) allowed

-- The loop over the executions of effective_tools_for.
unfoldable pub narrow : String → String → List SkillExecution → List String → List String
narrow turn_id agent_id [] allowed = allowed
narrow turn_id agent_id (e ∷ es) allowed =
    narrow turn_id agent_id es
      (if narrows turn_id agent_id e then intersection e.effective_tools allowed else allowed)

-- SkillExecutionRegistry.effective_tools_for
unfoldable pub effective_tools_for :
    String → String → List String → SkillExecutionRegistry → List String
effective_tools_for turn_id agent_id base_tools s =
    select (λ n. contains n (narrow turn_id agent_id s.executions base_tools)) base_tools

abbrev pub complete : String → SkillExecution → SkillExecution
complete turn_id e =
    if e.root_turn_id == turn_id && (e.context_mode == "inline" && is_active e.status)
    then record e { status = completed }
    else e

-- SkillExecutionRegistry.finish_turn
unfoldable pub finish_turn : String → SkillExecutionRegistry → SkillExecutionRegistry
finish_turn turn_id s = record { executions = map (complete turn_id) s.executions }
