-- ===== src/Skills/Models.antt =====
-- agent-harness/src/agent_harness/skills/models.py: what is known of a skill, and an activation of one.
-- Paths are texts.
use general_agent_design.Common.{String, ℕ, Bool, Option, List}

pub data SkillScope : Type 0 where
  bundled admin user project : SkillScope

pub record SkillResource : Type 0 where
  pub relative_path : String
  pub kind : String
  pub byte_size : ℕ
  pub content_hash : String

pub record SkillRecord : Type 0 where
  pub skill_id : String
  pub qualified_name : String
  pub name : String
  pub description : String
  pub scope : SkillScope
  pub base_dir : String
  pub skill_path : String
  pub metadata_hash : String
  pub license : Option String
  pub compatibility : Option String
  pub metadata : List (String × String)
  pub allowed_tools : List String
  pub disable_model_invocation : Bool
  pub user_invocable : Bool
  pub argument_hint : Option String
  pub context_mode : String
  pub agent : Option String
  pub trusted : Bool
  pub enabled : Bool
  pub resources : List SkillResource

pub record SkillDiagnostic : Type 0 where
  pub level : String
  pub code : String
  pub message : String
  pub path : Option String

pub record SkillCatalogSnapshot : Type 0 where
  pub catalog_id : String
  pub skills : List SkillRecord
  pub rendered : String
  pub char_count : ℕ
  pub omitted_skill_ids : List String
  pub diagnostics : List SkillDiagnostic

pub record SkillActivationSnapshot : Type 0 where
  pub activation_id : String
  pub skill_snapshot_id : String
  pub skill_id : String
  pub qualified_name : String
  pub activated_turn_id : String
  pub arguments : String
  pub arguments_hash : String
  pub rendered_instructions : String
  pub content_hash : String
  pub source_path : String
  pub allowed_tools : List String
  pub context_mode : String
  pub agent : Option String
  pub resources : List SkillResource
  pub context_priority : String
  pub protected_from_normal_pruning : Bool
