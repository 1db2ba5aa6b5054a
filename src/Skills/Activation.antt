-- ===== src/Skills/Activation.antt =====
-- SkillManager.resolve of agent-harness/src/agent_harness/skills/activation.py: from a name to the record
-- that may be invoked. A PermissionError is `other`, and messages leave out the names they quote.
pub mod Gates
use general_agent_design.Common.{
  String, ◌≡◌, refl, ◌⊎◌, inl, inr, Bool, true, false, not, ◌&&◌, ◌||◌, Option, none, some, List,
  [], ◌∷◌, ◌==◌, all, select, if◌then◌else◌, arith, eq_iff,
}
use general_agent_design.Domain.Errors.{Result, ok, err, value_error, other, ◌>>=◌, >>=-ok}
use general_agent_design.Skills.Models.{SkillRecord}

abbrev pub is_match : String → SkillRecord → Bool
is_match name r = r.qualified_name == name || r.name == name

-- next((item for item in matches if item.qualified_name == name), default)
abbrev pub preferred : String → SkillRecord → List SkillRecord → SkillRecord
preferred name default [] = default
preferred name default (r ∷ rs) = if r.qualified_name == name then r else preferred name default rs

abbrev pub several : List SkillRecord → Bool
several (_ ∷ _ ∷ _) = true
several _ = false

-- The record that a name stands for, of those that match it.
abbrev pub choose : String → List SkillRecord → Result SkillRecord
choose name [] = err (value_error "no such skill")
choose name (r ∷ rs) =
    if several (r ∷ rs) && all (λ q. not (q.qualified_name == name)) (r ∷ rs)
    then err (value_error "the name of the skill is ambiguous")
    else ok (preferred name r (r ∷ rs))

-- The gates of an invocation.
abbrev pub admit : Bool → SkillRecord → Result SkillRecord
admit user_invocation r =
    if not r.enabled || not r.trusted
    then err (other "the skill is not enabled or the workspace not trusted")
    else if user_invocation && not r.user_invocable
    then err (other "the user may not invoke the skill")
    else if not user_invocation && r.disable_model_invocation
    then err (other "only the user may invoke the skill")
    else ok r

-- SkillManager.resolve
unfoldable pub resolve : List SkillRecord → String → Bool → Result SkillRecord
resolve records name user_invocation =
    choose name (select (is_match name) records) >>= admit user_invocation
