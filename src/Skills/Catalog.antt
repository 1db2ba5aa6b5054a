-- ===== src/Skills/Catalog.antt =====
-- agent-harness/src/agent_harness/skills/catalog.py: the list of skills that a model is shown. `digest`
-- is the SHA-256 of a text.
pub mod Limits
use Prim.Native.String.{count}
use general_agent_design.Common.{
  ℕ, String, Bool, not, ◌||◌, List, [], ◌∷◌, ◌++◌, ltb, if◌then◌else◌,
}
use general_agent_design.Compaction.{join_lines}
use general_agent_design.Tools.Schema.{at}
use general_agent_design.Tools.Runtime.{take_text}
use general_agent_design.Skills.Models.{SkillRecord, SkillDiagnostic, SkillCatalogSnapshot}

-- The lists that build_catalog grows.
pub record Building : Type 0 where
  pub entries : List String
  pub included : List SkillRecord
  pub omitted : List String

abbrev pub empty_catalog : Building
empty_catalog = record { entries = []; included = []; omitted = [] }

unfoldable pub entry : SkillRecord → String
entry r =
    at "- " (at r.qualified_name (at ": " (at r.description (at " (path: " (at r.skill_path ")")))))

abbrev pub is_hidden : SkillRecord → Bool
is_hidden r = not r.enabled || (not r.trusted || r.disable_model_invocation)

-- A record's round of the loop, and the loop.
unfoldable pub consider : ℕ → SkillRecord → Building → Building
consider max_chars r b =
    if is_hidden r
    then b
    else if ltb max_chars (count (join_lines (b.entries ++ (entry r ∷ []))))
    then record b { omitted = b.omitted ++ (r.skill_id ∷ []) }
    else record b { entries = b.entries ++ (entry r ∷ []); included = b.included ++ (r ∷ []) }

unfoldable pub gather : ℕ → List SkillRecord → Building → Building
gather max_chars [] b = b
gather max_chars (r ∷ rs) b = gather max_chars rs (consider max_chars r b)

abbrev pub snapshot_of : (String → String) → List SkillDiagnostic → Building → SkillCatalogSnapshot
snapshot_of digest diagnostics b = record {
  catalog_id = at "skill_catalog_" (take_text 16 (digest (join_lines b.entries)));
  skills = b.included;
  rendered = join_lines b.entries;
  char_count = count (join_lines b.entries);
  omitted_skill_ids = b.omitted;
  diagnostics = diagnostics;
}

unfoldable pub build_catalog :
    (String → String) → List SkillRecord → List SkillDiagnostic → ℕ → SkillCatalogSnapshot
build_catalog digest records diagnostics max_chars =
    snapshot_of digest diagnostics (gather max_chars records empty_catalog)
