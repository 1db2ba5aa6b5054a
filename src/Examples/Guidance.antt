-- ===== src/Examples/Guidance.antt =====
-- Two files that import each other, and decisions about a workspace.
use general_agent_design.Common.{
  String, ◌≡◌, refl, true, false, some, none, [], ◌∷◌, ◌==◌, if◌then◌else◌,
}
use general_agent_design.Domain.Errors.{Result, ok}
use general_agent_design.Domain.Json.{Value}
use general_agent_design.Guidance.Trust.{trusted, WorkspaceTrustStore, get, set}
use general_agent_design.Guidance.Trust.Decisions.{after_set, get-set}
use general_agent_design.Guidance.Imports.{
  ImportLimits, FileContent, decoded, Files, Progress, done, import_of, import_cycle, expand_lines,
  visit, load, locate, expand_imports,
}
use general_agent_design.Guidance.Imports.Limits.{IsWithin, expand_imports-IsWithin}

abbrev folded : String → String
folded w = if w == "B" then "b" else w

abbrev show : Value → String
show v = ""

abbrev trusts : WorkspaceTrustStore
trusts = record { once_roots = []; file = none }

get-set_example :
    get folded show "b" (set folded show "B" trusted trusts)
    ≡ after_set folded show true false trusted (get folded show "b" trusts)
get-set_example = get-set folded show "B" "b" trusted trusts

abbrev content : String → FileContent
content p =
    if p == "a"
    then decoded 20 ("one" ∷ "@import b" ∷ [])
    else decoded 15 ("  @import a" ∷ "two" ∷ [])

abbrev files : Files
files = record {
  resolve = λ p. some p;
  is_relative_to = λ p root. true;
  read = content;
  sibling = λ p i. i;
  is_absolute = λ p. p == "/";
  is_space = λ c. String.◌∷◌ c "" == " ";
}

abbrev limits : ImportLimits
limits = record { max_depth = 4; max_files = 32; max_total_bytes = 100 }

abbrev ended : Progress
ended = record {
  seen = "b" ∷ "a" ∷ [];
  total_bytes = 35;
  diagnostics = record { code = import_cycle; path = "a" } ∷ [];
}

breaks_cycle : expand_imports files limits "a" "root" ≡ done (ok "one\n\ntwo") ended
unfolding expand_imports load locate visit expand_lines import_of
breaks_cycle = refl

expand_imports-IsWithin_example :
    (text : Result String) × (p : Progress) × (expand_imports files limits "a" "root" ≡ done text p)
    × IsWithin files limits "root" p
expand_imports-IsWithin_example = expand_imports-IsWithin files limits "root" "a"
