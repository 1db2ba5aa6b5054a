-- ===== src/Security/PathPolicy.antt =====
-- agent-harness/src/agent_harness/security/path_policy.py. A path is the list of its components;
-- what the file system makes of one is `Host.canonical`.
pub mod Boundary
use general_agent_design.Common.{
  String, Bool, true, false, not, ◌&&◌, Option, none, some, List, [], ◌∷◌, ◌++◌, any, ◌==◌,
  if◌then◌else◌,
}
use general_agent_design.Domain.Errors.{Result, ok, fail, tool_authorization, ◌>>=◌}
use general_agent_design.Security.Models.{FilePath, Host}

abbrev pub protected_deny_patterns : List String
protected_deny_patterns = ".env" ∷ "**/.env" ∷ "**/*.pem" ∷ "**/*.key" ∷ ".harness/threads/**" ∷ []

abbrev pub protected_ask_patterns : List String
protected_ask_patterns =
    ".git/**" ∷ "**/package-lock.json" ∷ "**/pnpm-lock.yaml" ∷ "**/poetry.lock" ∷ []

pub record ResolvedPath : Type 0 where
  pub original : FilePath
  pub resolved : FilePath
  pub relative : String

-- `resolved.relative_to(root)`; `none` where `is_relative_to` is false.
unfoldable pub relative_to : FilePath → FilePath → Option FilePath
relative_to path [] = some path
relative_to [] (r ∷ root) = none
relative_to (p ∷ path) (r ∷ root) = if p == r then relative_to path root else none

-- `.as_posix() or "."`
abbrev pub posix_or_dot : Host → FilePath → String
posix_or_dot h rest = let s = h.posix rest in if s == "" then "." else s

-- resolved == root, of a path under the root
abbrev is_root : FilePath → Bool
is_root [] = true
is_root _ = false

module _ (h : Host) where
  unfoldable pub reject_denied : String → Result (Unit {0})
  reject_denied relative =
      if any (λ pattern. h.fnmatch relative pattern) protected_deny_patterns
      then fail tool_authorization "Protected path is denied"
      else ok tt

  unfoldable pub within : FilePath → FilePath → Bool → Option FilePath → Result ResolvedPath
  within original resolved allow_root none = fail tool_authorization "Path escapes workspace"
  within original resolved allow_root (some rest) =
      if not allow_root && is_root rest
      then fail tool_authorization "Workspace root cannot be modified or deleted"
      else do
        _ ← reject_denied (posix_or_dot h rest)
        ok (record { original = original; resolved = resolved; relative = posix_or_dot h rest })

  unfoldable pub resolve : FilePath → String → Bool → Result ResolvedPath
  resolve workspace_root raw_path allow_root =
      if h.is_absolute raw_path
      then fail tool_authorization "Absolute paths are not allowed"
      else (let root = h.canonical workspace_root in
          let original = root ++ h.parts raw_path in
          let resolved = h.canonical original in
          within original resolved allow_root (relative_to resolved root))

  unfoldable pub requires_approval : ResolvedPath → Bool
  requires_approval p = any (λ pattern. h.fnmatch p.relative pattern) protected_ask_patterns
