-- ===== src/Security/Rules.antt =====
-- agent-harness/src/agent_harness/security/rules.py. A rule that looks at `args` raises TypeError where
-- the value cannot be iterated: `raises` says of which rules that is so, and `matches` is the answer of
-- the others.
pub mod Precedence
use mathlib.Core.Bool.{decide}
use Prim.Native.String
use general_agent_design.Common.{
  String, Bool, true, false, not, ◌&&◌, Option, none, some, List, [], ◌∷◌, ◌++◌, map, any, select,
  length, take, ◌==◌, if◌then◌else◌,
}
use general_agent_design.Common.Dict.{lookup}
use general_agent_design.Domain.Json.{
  Value, null, text, array, dict, Members, no_member, member, Arguments, list_or_empty, elements_of,
}
use general_agent_design.Domain.Tools.{Capability}
use general_agent_design.Security.Models.{
  PermissionDecision, allow, ask, deny, is_allow, is_ask, is_deny, RuleSource, Principal, Host, str,
  given, has_capability,
}

pub record PermissionRule : Type 0 where
  pub rule_id : String
  pub decision : PermissionDecision
  pub source : RuleSource
  pub tool : Option String
  pub path : Option String
  pub argv_prefix : List String
  pub agent : Option String
  pub capability : Option Capability
  pub trusted : Bool

-- self.name == value, for a configured name
abbrev pub same : Option String → String → Bool
same none s = false
same (some t) s = t == s

abbrev pub list_eq : List String → List String → Bool
list_eq [] [] = true
list_eq (x ∷ xs) (y ∷ ys) = x == y && list_eq xs ys
list_eq _ _ = false

abbrev pub or_text : String → Option String → String
or_text d none = d
or_text d (some s) = s

abbrev pub some_of : Option Value → List Value
some_of none = []
some_of (some v) = v ∷ []

abbrev lacks : Option Capability → Principal → Bool
lacks none p = false
lacks (some c) p = not (has_capability c p.capabilities)

-- value is not None
abbrev is_value : Value → Bool
is_value null = false
is_value _ = true

-- not xs
abbrev is_empty : List String → Bool
is_empty [] = true
is_empty _ = false

-- list(s) of a text, and list(d) of a dict
abbrev pub characters : String → List Value
characters String.[] = []
characters (String.◌∷◌ c s) = text (String.◌∷◌ c "") ∷ characters s

abbrev pub keys_of : Members → List Value
keys_of no_member = []
keys_of (member k v ms) = text k ∷ keys_of ms

module _ (h : Host) where
  pub matches_any_path : PermissionRule → Arguments → Bool
  matches_any_path r arguments =
      any (λ v. is_value v && h.fnmatch (h.posix (h.parts (str h v))) (or_text "" r.path))
        (some_of (lookup "path" arguments)
          ++ (some_of (lookup "cwd" arguments) ++ list_or_empty (lookup "paths" arguments)))

  -- The values that iterating over `args` gives, if it can be iterated
  abbrev pub iterated : Option Value → Option (List Value)
  iterated none = some []
  iterated (some (array vs)) = some (elements_of vs)
  iterated (some (text s)) = some (characters s)
  iterated (some (dict ms)) = some (keys_of ms)
  iterated (some _) = none

  abbrev pub values_or_none : Option (List Value) → List Value
  values_or_none (some vs) = vs
  values_or_none none = []

  pub argv : Arguments → List String
  argv arguments =
      program (lookup "program" arguments)
      ∷ map (str h) (values_or_none (iterated (lookup "args" arguments)))
    where
      program : Option Value → String
      program none = ""
      program (some v) = str h v

  pub matches_argv : PermissionRule → Arguments → Bool
  matches_argv r arguments = list_eq (take (length r.argv_prefix) (argv arguments)) r.argv_prefix

  abbrev pub matches_until_argv : PermissionRule → Principal → String → Arguments → Bool
  matches_until_argv r principal tool_name arguments =
      if given r.tool && not (same r.tool tool_name)
      then false
      else if given r.agent && not (same r.agent principal.agent_id)
      then false
      else if lacks r.capability principal
      then false
      else if given r.path && not (matches_any_path r arguments)
      then false
      else true

  abbrev pub is_none : Option (List Value) → Bool
  is_none none = true
  is_none (some _) = false

  -- matches comes to the test of argv, which raises.
  unfoldable pub raises : PermissionRule → Principal → String → Arguments → Bool
  raises r principal tool_name arguments =
      matches_until_argv r principal tool_name arguments
      && (not (is_empty r.argv_prefix) && is_none (iterated (lookup "args" arguments)))

  unfoldable pub matches : PermissionRule → Principal → String → Arguments → Bool
  matches r principal tool_name arguments =
      if not (matches_until_argv r principal tool_name arguments)
      then false
      else if not (is_empty r.argv_prefix) && not (matches_argv r arguments)
      then false
      else true

-- The precedence DENY, ASK, ALLOW over the set of the matching rules' decisions.
unfoldable pub resolve_rule_decision : List PermissionRule → Option PermissionDecision
resolve_rule_decision rules =
    if any (λ r. is_deny r.decision) rules
    then some deny
    else if any (λ r. is_ask r.decision) rules
    then some ask
    else if any (λ r. is_allow r.decision) rules
    then some allow
    else none
