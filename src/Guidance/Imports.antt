-- ===== src/Guidance/Imports.antt =====
-- agent-harness/src/agent_harness/guidance/imports.py: expand_imports on fuel. The file system and the
-- white space of regular expressions are parameters; a path is its text. The texts of the diagnostics
-- are left out.
pub mod Limits
use Prim.Native.Char.{Char}
use Prim.Native.String
use general_agent_design.Common.{
  ℕ, zero, suc, ◌+◌, String, Bool, true, false, not, Option, none, some, List, [], ◌∷◌, ◌++◌,
  length, ltb, leb, ◌==◌, contains, if◌then◌else◌,
}
use general_agent_design.Domain.Errors.{Exception, other, Result, ok, err}

pub record ImportLimits : Type 0 where
  pub max_depth : ℕ
  pub max_files : ℕ
  pub max_total_bytes : ℕ

pub data DiagnosticCode : Type 0 where
  import_boundary import_cycle import_depth import_count : DiagnosticCode
  invalid_utf8 import_bytes absolute_import : DiagnosticCode

pub record GuidanceDiagnostic : Type 0 where
  pub code : DiagnosticCode
  pub path : String

-- What reading a file gives: its size in bytes and its lines, or an error of the decoding or of the
-- file system.
pub data FileContent : Type 0 where
  decoded : ℕ → List String → FileContent
  not_utf8 : FileContent
  unreadable : String → FileContent

-- `resolve` is the strict resolution of a path, where it exists; `is_relative_to r root` says that
-- r.relative_to(root) does not raise, and `sibling` is `resolved.parent / imported`.
pub record Files : Type 0 where
  pub resolve : String → Option String
  pub is_relative_to : String → String → Bool
  pub read : String → FileContent
  pub sibling : String → String → String
  pub is_absolute : String → Bool
  pub is_space : Char → Bool

-- The variables that `load` shares: `seen` is newest first, the diagnostics oldest first.
pub record Progress : Type 0 where
  pub seen : List String
  pub total_bytes : ℕ
  pub diagnostics : List GuidanceDiagnostic

-- What a call comes to.
pub data Run (A : Type 0) : Type 0 where
  out_of_fuel : Run A
  done : Result A → Progress → Run A

abbrev pub nothing_loaded : Progress
nothing_loaded = record { seen = []; total_bytes = 0; diagnostics = [] }

abbrev pub and_then : {A B : Type 0} → Run A → (A → Progress → Run B) → Run B
and_then out_of_fuel f = out_of_fuel
and_then (done (ok a) p) f = f a p
and_then (done (err x) p) f = done (err x) p

abbrev pub report : DiagnosticCode → String → Progress → Progress
report code path p = record p {
  diagnostics = p.diagnostics ++ record { code = code; path = path } ∷ [];
}

-- s.lstrip()
abbrev pub lstrip : (Char → Bool) → String → String
lstrip sp String.[] = ""
lstrip sp (String.◌∷◌ c s) = if sp c then lstrip sp s else String.◌∷◌ c s

abbrev all_spaces : (Char → Bool) → String → Bool
all_spaces sp String.[] = true
all_spaces sp (String.◌∷◌ c s) = if sp c then all_spaces sp s else false

abbrev pub rstrip : (Char → Bool) → String → String
rstrip sp String.[] = ""
rstrip sp (String.◌∷◌ c s) =
    let rest = rstrip sp s in if all_spaces sp (String.◌∷◌ c s) then "" else String.◌∷◌ c rest

-- What follows a prefix.
abbrev pub after : String → String → Option String
after String.[] s = some s
after (String.◌∷◌ c t) String.[] = none
after (String.◌∷◌ c t) (String.◌∷◌ d s) =
    if String.◌∷◌ c "" == String.◌∷◌ d "" then after t s else none

-- The characters up to the first white space, if there are any and only white space follows.
abbrev token : (Char → Bool) → String → Option String
token sp String.[] = some ""
token sp (String.◌∷◌ c s) =
    let rest = token sp s in
    if sp c
    then (if all_spaces sp s then some "" else none)
    else elim rest [ none ↦ none | some t ↦ some (String.◌∷◌ c t) ]

abbrev nonempty : Option String → Option String
nonempty none = none
nonempty (some t) = if t == "" then none else some t

abbrev starts_with_space : (Char → Bool) → String → Bool
starts_with_space sp String.[] = false
starts_with_space sp (String.◌∷◌ c s) = sp c

abbrev imported_by : (Char → Bool) → Option String → Option String
imported_by sp none = none
imported_by sp (some rest) =
    if starts_with_space sp rest then nonempty (token sp (lstrip sp rest)) else none

-- IMPORT_RE.match(line).group(1)
unfoldable pub import_of : (Char → Bool) → String → Option String
import_of sp line = imported_by sp (after "@import" (lstrip sp line))

abbrev is_found : Option String → Bool
is_found none = false
is_found (some s) = true

-- line.lstrip().startswith("```")
abbrev pub is_fence : (Char → Bool) → String → Bool
is_fence sp line = is_found (after "```" (lstrip sp line))

abbrev pub join_lines : List String → String
join_lines [] = ""
join_lines (s ∷ []) = s
join_lines (s ∷ t ∷ ts) = String.◌++◌ s (String.◌++◌ "\n" (join_lines (t ∷ ts)))

abbrev pub prepend : String → Run (List String) → Run (List String)
prepend s r = and_then r (λ ts p. done (ok (s ∷ ts)) p)

abbrev pub directive : Bool → Option String → Option String
directive true o = none
directive false o = o

abbrev pub inside : Files → Option String → Option String → Option String
inside files (some resolved) (some root) =
    if files.is_relative_to resolved root then some resolved else none
inside files _ _ = none

-- The resolution of a path that exists in the boundary
unfoldable pub locate : Files → String → String → Option String
locate files boundary current = inside files (files.resolve current) (files.resolve boundary)

module _ (files : Files) (limits : ImportLimits) where
  -- One line: an import is loaded by `rec`; `rest` is the rest of the loop.
  abbrev pub expand_line :
      (String → Progress → Run String)
      → String
      → String
      → (Progress → Run (List String))
      → Option String
      → Progress
      → Run (List String)
  expand_line rec resolved line rest none p = prepend line (rest p)
  expand_line rec resolved line rest (some imported) p =
      if files.is_absolute imported
      then rest (report absolute_import imported p)
      else and_then (rec (files.sibling resolved imported) p) (λ s q. prepend s (rest q))

  -- The loop over the lines of a file.
  unfoldable pub expand_lines :
      (String → Progress → Run String) → String → Bool → List String → Progress → Run (List String)
  unfolding import_of
  expand_lines rec resolved in_fence [] p = done (ok []) p
  expand_lines rec resolved in_fence (line ∷ lines) p =
      let fence = if is_fence files.is_space line then not in_fence else in_fence in
      expand_line rec resolved line (λ q. expand_lines rec resolved fence lines q)
        (directive fence (import_of files.is_space line)) p

  -- A file that may be read: its lines, expanded.
  abbrev pub enter : (String → Progress → Run String) → String → FileContent → Progress → Run String
  enter rec resolved not_utf8 p = done (ok "") (report invalid_utf8 resolved p)
  enter rec resolved (unreadable m) p = done (err (other m)) p
  enter rec resolved (decoded size lines) p =
      if ltb limits.max_total_bytes (p.total_bytes + size)
      then done (ok "") (report import_bytes resolved p)
      else and_then
          (expand_lines rec resolved false lines
            (record p { seen = resolved ∷ p.seen; total_bytes = p.total_bytes + size }))
          (λ output q.
            done (ok (rstrip files.is_space (lstrip files.is_space (join_lines output)))) q)

  -- What `load` does with a resolved path.
  unfoldable pub visit :
      (String → Progress → Run String) → String → ℕ → List String → Progress → Run String
  unfolding expand_lines
  visit rec resolved depth stack p =
      if contains resolved stack
      then done (ok "") (report import_cycle resolved p)
      else if contains resolved p.seen
      then done (ok "") p
      else if ltb limits.max_depth depth
      then done (ok "") (report import_depth resolved p)
      else if leb limits.max_files (length p.seen)
      then done (ok "") (report import_count resolved p)
      else enter rec resolved (files.read resolved) p

  abbrev pub visit_found :
      (String → String → Progress → Run String)
      → String
      → Option String
      → ℕ
      → List String
      → Progress
      → Run String
  visit_found rec current none depth stack p = done (ok "") (report import_boundary current p)
  visit_found rec current (some resolved) depth stack p =
      visit (rec resolved) resolved depth stack p

  unfoldable pub load : String → ℕ → String → ℕ → List String → Progress → Run String
  unfolding visit
  load boundary zero current depth stack p = out_of_fuel
  load boundary (suc n) current depth stack p =
      visit_found (λ resolved path q. load boundary n path (suc depth) (resolved ∷ stack) q) current
        (locate files boundary current) depth stack p

  -- expand_imports, with fuel for two calls more than max_depth nested in each other
  unfoldable pub expand_imports : String → String → Run String
  unfolding load
  expand_imports path boundary = load boundary (limits.max_depth + 2) path 0 [] nothing_loaded
