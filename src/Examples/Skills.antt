-- ===== src/Examples/Skills.antt =====
-- Two skills of one short name, their catalog, and what one of them leaves of an agent's tools.
use general_agent_design.Common.{
  String, ◌≡◌, refl, Bool, true, false, none, List, [], ◌∷◌, select, contains,
}
use general_agent_design.Domain.Errors.{ok, err, value_error}
use general_agent_design.Skills.Models.{SkillRecord, SkillActivationSnapshot, project}
use general_agent_design.Skills.Activation.{resolve}
use general_agent_design.Skills.Activation.Gates.{IsNamed, is_invocable, resolve-IsNamed}
use general_agent_design.Skills.Catalog.{entry, consider, gather, build_catalog}
use general_agent_design.Skills.Catalog.Limits.{IsCatalog, build_catalog-IsCatalog}
use general_agent_design.Skills.Execution.{
  SkillExecutionRegistry, start, narrow, effective_tools_for,
}
use general_agent_design.Skills.Execution.Scope.{effective_tools_for-start}

abbrev skill : String → String → Bool → SkillRecord
skill id qualified_name disable = record {
  skill_id = id;
  qualified_name = qualified_name;
  name = "review";
  description = "Review";
  scope = project;
  base_dir = "skills";
  skill_path = "s";
  metadata_hash = "h";
  license = none;
  compatibility = none;
  metadata = [];
  allowed_tools = "read_file" ∷ [];
  disable_model_invocation = disable;
  user_invocable = true;
  argument_hint = none;
  context_mode = "inline";
  agent = none;
  trusted = true;
  enabled = true;
  resources = [];
}

abbrev skills : List SkillRecord
skills = skill "1" "user:review" true ∷ skill "2" "project:review" false ∷ []

refuses_short_name :
    resolve skills "review" true ≡ err (value_error "the name of the skill is ambiguous")
unfolding resolve
refuses_short_name = refl

finds_qualified_name : resolve skills "project:review" false ≡ ok (skill "2" "project:review" false)
unfolding resolve
finds_qualified_name = refl

resolve-IsNamed_example :
    IsNamed skills "project:review" (skill "2" "project:review" false)
    × (true ≡ true)
    × (true ≡ true)
    × (is_invocable false (skill "2" "project:review" false) ≡ true)
resolve-IsNamed_example =
    resolve-IsNamed skills "project:review" false (skill "2" "project:review" false)
      finds_qualified_name

abbrev no_digest : String → String
no_digest s = "0123456789abcdef0123"

shows_one : (build_catalog no_digest skills [] 40).rendered ≡ "- project:review: Review (path: s)"
unfolding build_catalog gather consider entry
shows_one = refl

build_catalog-IsCatalog_example : IsCatalog skills 40 (build_catalog no_digest skills [] 40)
build_catalog-IsCatalog_example = build_catalog-IsCatalog no_digest skills [] 40

abbrev activation : SkillActivationSnapshot
activation = record {
  activation_id = "a";
  skill_snapshot_id = "s";
  skill_id = "2";
  qualified_name = "project:review";
  activated_turn_id = "t";
  arguments = "";
  arguments_hash = "";
  rendered_instructions = "Review it.";
  content_hash = "c";
  source_path = "s";
  allowed_tools = "read_file" ∷ [];
  context_mode = "inline";
  agent = none;
  resources = [];
  context_priority = "durable_guidance";
  protected_from_normal_pruning = true;
}

abbrev tools : List String
tools = "write_file" ∷ "read_file" ∷ []

abbrev registry : SkillExecutionRegistry
registry = record { executions = [] }

narrows_tools :
    effective_tools_for "t" "agent" tools (start "e" activation "model_tool" "t" "agent" registry).1
    ≡ "read_file" ∷ []
unfolding effective_tools_for narrow start
narrows_tools = refl

effective_tools_for-start_example :
    effective_tools_for "t" "agent" tools (start "e" activation "model_tool" "t" "agent" registry).1
    ≡ select (λ n. contains n ("read_file" ∷ [])) (effective_tools_for "t" "agent" tools registry)
effective_tools_for-start_example =
    effective_tools_for-start "e" "model_tool" "t" "agent" activation "t" "agent" tools registry
