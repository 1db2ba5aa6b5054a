-- ===== src/Guidance/Trust/Decisions.antt =====
-- Reading a decision after writing one (WorkspaceTrustStore of
-- agent-harness/src/agent_harness/guidance/trust.py).
use general_agent_design.Common.{
  String, ◌≡◌, refl, ap, ◌∙◌, Bool, true, false, Option, some, [], ◌∷◌, ◌==◌, arith, eq_iff,
  eq_refl, contains, if◌then◌else◌,
}
use general_agent_design.Common.Dict.{Dict, lookup, insert, lookup-insert}
use general_agent_design.Domain.Errors.{Result, ok}
use general_agent_design.Domain.Json.{Value}
use general_agent_design.Guidance.Trust.{
  WorkspaceTrustState, unknown, trusted_once, trusted, untrusted, state_text, state_of,
  WorkspaceTrustStore, text_members, text_or_unknown, rows, read, get, with_row, set,
}

state_of-state_text : (t : WorkspaceTrustState) → state_of (state_text t) ≡ ok t
state_of-state_text unknown = refl
state_of-state_text trusted_once = refl
state_of-state_text trusted = refl
state_of-state_text untrusted = refl

choose :
    (once same : Bool) (state : WorkspaceTrustState) (o : Option String)
    → (if once
        then ok trusted_once
        else state_of (text_or_unknown (if same then some (state_text state) else o)))
      ≡ (if once
          then ok trusted_once
          else if same
          then ok state
          else if once
          then ok trusted_once
          else state_of (text_or_unknown o))
choose true same state o = refl
choose false true state o = state_of-state_text state
choose false false state o = refl

module _ (identity : String → String) (show : Value → String) where
  rows-text_members : (d : Dict String) → rows identity show (text_members d) ≡ d
  rows-text_members [] = refl
  rows-text_members ((k, v) ∷ d) = ap (◌∷◌ (k, v)) (rows-text_members d)

  -- What a workspace has after a decision is set for one: a decision for this process is found
  -- under the same identity; a persisted one too, unless the workspace is trusted for this process.
  abbrev pub after_set :
      Bool → Bool → WorkspaceTrustState → Result WorkspaceTrustState → Result WorkspaceTrustState
  after_set same once trusted_once before = if same then ok trusted_once else before
  after_set same once state before =
      if once then ok trusted_once else if same then ok state else before

  get-with_row :
      (w v : String) (state : WorkspaceTrustState) (s : WorkspaceTrustStore)
      → get identity show v (with_row identity show w state s) ≡ (
          if contains (identity v) s.once_roots
          then ok trusted_once
          else if identity w == identity v
          then ok state
          else get identity show v s)
  unfolding get
  get-with_row w v state s =
      let once : Bool = contains (identity v) s.once_roots in
      let old : Dict String = read identity show s.file in
      ap
        (λ (d : Dict String).
          if once then ok trusted_once else state_of (text_or_unknown (lookup (identity v) d)))
        (rows-text_members (insert (identity w) (state_text state) old))
      ∙ ap (λ (o : Option String). if once then ok trusted_once else state_of (text_or_unknown o))
          (lookup-insert (identity w) (identity v) (state_text state) old)
      ∙ choose once (identity w == identity v) state (lookup (identity v) old)

  -- A decision for one workspace is read for every workspace of the same identity and no other. A
  -- workspace that is trusted for this process stays so, whatever is persisted for it afterwards.
  pub get-set :
      (w v : String) (state : WorkspaceTrustState) (s : WorkspaceTrustStore)
      → get identity show v (set identity show w state s)
        ≡ after_set
            (identity w == identity v)
            (contains (identity v) s.once_roots)
            state
            (get identity show v s)
  unfolding set get
  get-set w v trusted_once s =
      ground (arith, eq_iff (identity w) (identity v), eq_iff (identity v) (identity w))
  get-set w v unknown s = get-with_row w v unknown s
  get-set w v trusted s = get-with_row w v trusted s
  get-set w v untrusted s = get-with_row w v untrusted s

  -- Distrusting a workspace that was trusted for this process has no effect in it.
  get_distrusted :
      (w : String) (s : WorkspaceTrustStore)
      → get identity show w (set identity show w untrusted (set identity show w trusted_once s))
        ≡ ok trusted_once
  unfolding set get
  get_distrusted w s = ground (arith, eq_refl (identity w))
