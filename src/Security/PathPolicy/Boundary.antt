-- ===== src/Security/PathPolicy/Boundary.antt =====
-- The paths that FileSystemPolicy.resolve (security/path_policy.py) returns.
use general_agent_design.Common.{
  String, ◌≡◌, ◌≢◌, ◌⊎◌, inl, inr, true, refl, Bool, false, Bool-cases, Option, none, some, [], ◌∷◌,
  ◌++◌, any, eq_iff, arith, inl, inr,
}
use general_agent_design.Domain.Errors.{ok}
use general_agent_design.Security.Models.{FilePath, Host}
use general_agent_design.Security.PathPolicy.{
  ResolvedPath, relative_to, posix_or_dot, reject_denied, within, resolve, protected_deny_patterns,
}

pub relative_to-append :
    (path root rest : FilePath) → relative_to path root ≡ some rest → path ≡ root ++ rest
unfolding relative_to
relative_to-append path [] rest h = ground arith
relative_to-append [] (r ∷ root) rest h = cc
relative_to-append (p ∷ path) (r ∷ root) rest h =
    ground (arith, eq_iff p r, relative_to-append path root rest)

-- The guarantees of FileSystemPolicy.resolve.
pub record IsInside (h : Host) (root : FilePath) (allow_root : Bool) (p : ResolvedPath)
    : Type 0 where
  pub rest : FilePath
  pub below : p.resolved ≡ root ++ rest
  pub named : p.relative ≡ posix_or_dot h rest
  pub unprotected : any (λ pattern. h.fnmatch p.relative pattern) protected_deny_patterns ≡ false
  pub proper : (allow_root ≡ true) ⊎ (rest ≢ [])

module _ (h : Host) where
  within-IsInside :
      (root original resolved : FilePath) (allow_root : Bool) (o : Option FilePath)
      (p : ResolvedPath)
      → relative_to resolved root ≡ o
      → within h original resolved allow_root o ≡ ok p
      → IsInside h root allow_root p
  unfolding within reject_denied
  within-IsInside root original resolved allow_root none p r e = cc
  within-IsInside root original resolved allow_root (some []) p r e = record {
    rest = [];
    below = ground (arith, relative_to-append resolved root [] r);
    named = ground arith;
    unprotected = ground arith;
    proper = inl (ground arith);
  }
  within-IsInside root original resolved allow_root (some (x ∷ rest)) p r e = record {
    rest = x ∷ rest;
    below = ground (arith, relative_to-append resolved root (x ∷ rest) r);
    named = ground arith;
    unprotected = ground arith;
    proper = inr (λ q. cc);
  }

  -- A path that `resolve` returns was not absolute, lies under the canonical workspace root, matches
  -- no pattern of the files that are denied (those that only need approval are returned), and is not the
  -- root itself where that is excluded.
  pub resolve-IsInside :
      (root : FilePath) (raw : String) (allow_root : Bool) (p : ResolvedPath)
      → resolve h root raw allow_root ≡ ok p
      → (h.is_absolute raw ≡ false) × IsInside h (h.canonical root) allow_root p
  unfolding resolve
  resolve-IsInside root raw allow_root p e = elim (Bool-cases (h.is_absolute raw)) [
    | inl a ↦ absurd (ground arith)
    | inr a ↦ (
      a,
      within-IsInside (h.canonical root) (h.canonical root ++ h.parts raw)
          (h.canonical (h.canonical root ++ h.parts raw)) allow_root
          (relative_to (h.canonical (h.canonical root ++ h.parts raw)) (h.canonical root)) p refl
          (ground arith),
    )
  ]
