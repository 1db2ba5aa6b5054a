-- ===== src/Skills/Activation/Gates.antt =====
-- Which record a name resolves to, and that it has passed every gate (SkillManager.resolve of
-- agent-harness/src/agent_harness/skills/activation.py).
use general_agent_design.Common.{
  String, ◌≡◌, refl, ◌⊎◌, inl, inr, Bool, true, false, not, List, [], ◌∷◌, ◌==◌, all, select,
  if◌then◌else◌, arith,
}
use general_agent_design.Domain.Errors.{Exception, value_error, ok, err, >>=-ok}
use general_agent_design.Skills.Models.{SkillRecord}
use general_agent_design.Skills.Activation.{is_match, preferred, choose, admit, resolve}

pub data IsIn (r : SkillRecord) : List SkillRecord → Type 0 where
  here : (rs : List SkillRecord) → IsIn r (r ∷ rs)
  there : (q : SkillRecord) {rs : List SkillRecord} → IsIn r rs → IsIn r (q ∷ rs)

-- A name stands for the record that has it as its qualified name, or for the only record that has it
-- as one of its names.
pub data IsNamed (records : List SkillRecord) (name : String) (r : SkillRecord) : Type 0 where
  qualified : IsIn r records → (r.qualified_name == name) ≡ true → IsNamed records name r
  only : select (is_match name) records ≡ r ∷ [] → IsNamed records name r

-- What a source of invocations may invoke.
abbrev pub is_invocable : Bool → SkillRecord → Bool
is_invocable true r = r.user_invocable
is_invocable false r = not r.disable_model_invocation

kept-IsIn :
    (b : Bool) (r x : SkillRecord) (ys xs : List SkillRecord)
    → (IsIn r ys → IsIn r xs)
    → IsIn r (if b then x ∷ ys else ys)
    → IsIn r (x ∷ xs)
kept-IsIn true r _ ys xs f (here _) = here xs
kept-IsIn true r x ys xs f (there _ m) = there x (f m)
kept-IsIn false r x ys xs f m = there x (f m)

select-IsIn :
    (p : SkillRecord → Bool) (r : SkillRecord) (xs : List SkillRecord)
    → IsIn r (select p xs)
    → IsIn r xs
select-IsIn p r [] m = m
select-IsIn p r (x ∷ xs) m = kept-IsIn (p x) r x (select p xs) xs (select-IsIn p r xs) m

abbrev IsPreferred : String → List SkillRecord → SkillRecord → Type 0
IsPreferred name rs p = IsIn p rs × ((p.qualified_name == name) ≡ true)

prefer :
    (name : String) (r p : SkillRecord) (rs : List SkillRecord) (b : Bool)
    → (r.qualified_name == name) ≡ b
    → (b ≡ false → IsPreferred name rs p)
    → IsPreferred name (r ∷ rs) (if b then r else p)
prefer name r p rs true e f = (here rs, e)
prefer name r p rs false e f = (there r (f refl).0, (f refl).1)

preferred-IsPreferred :
    (name : String) (d : SkillRecord) (rs : List SkillRecord)
    → all (λ q. not (q.qualified_name == name)) rs ≡ false
    → IsPreferred name rs (preferred name d rs)
preferred-IsPreferred name d [] h = absurd cc
preferred-IsPreferred name d (r ∷ rs) h =
    prefer name r (preferred name d rs) rs (r.qualified_name == name) refl
      (λ e. preferred-IsPreferred name d rs (ground (arith, h, e)))

either_way : (b : Bool) (q : SkillRecord) → (if b then q else q) ≡ q
either_way true q = refl
either_way false q = refl

unless_ok :
    (b : Bool) (e : Exception) (v r : SkillRecord)
    → (if b then err e else ok v) ≡ ok r
    → (b ≡ false) × (v ≡ r)
unless_ok true e v r h = absurd cc
unless_ok false e v r h = (refl, cc)

-- What `choose` returns is preferred, or the only one there is.
choose-ok :
    (name : String) (rs : List SkillRecord) (r : SkillRecord)
    → choose name rs ≡ ok r
    → IsPreferred name rs r ⊎ (rs ≡ r ∷ [])
choose-ok name [] r h = absurd cc
choose-ok name (q ∷ []) r h = inr (
    let e : (if q.qualified_name == name then q else q) ≡ q =
      either_way (q.qualified_name == name) q in
    cc)
choose-ok name (q ∷ p ∷ rs) r h =
    let ms : List SkillRecord = q ∷ p ∷ rs in
    let e : (all (λ x. not (x.qualified_name == name)) ms ≡ false) × (preferred name q ms ≡ r) =
      unless_ok (all (λ x. not (x.qualified_name == name)) ms)
        (value_error "the name of the skill is ambiguous") (preferred name q ms) r h in
    inl (coe 0 1 (i. IsPreferred name ms (e.1 i)) (preferred-IsPreferred name q ms e.0))

admit-ok :
    (user : Bool) (q r : SkillRecord)
    → admit user q ≡ ok r
    → (q ≡ r) × (q.enabled ≡ true) × (q.trusted ≡ true) × (is_invocable user q ≡ true)
admit-ok true q r h = ground (arith, h)
admit-ok false q r h = ground (arith, h)

choose-IsNamed :
    (records : List SkillRecord) (name : String) (r : SkillRecord)
    → IsPreferred name (select (is_match name) records) r
      ⊎ (select (is_match name) records ≡ r ∷ [])
    → IsNamed records name r
choose-IsNamed records name r (inl m) = qualified (select-IsIn (is_match name) r records m.0) m.1
choose-IsNamed records name r (inr e) = only e

-- A record that a name resolves to is the one that has the name as its qualified name, or the only
-- one that has it at all; it is enabled and trusted, and open to the user or to the model, whichever
-- of them asks.
pub resolve-IsNamed :
    (records : List SkillRecord) (name : String) (user : Bool) (r : SkillRecord)
    → resolve records name user ≡ ok r
    → IsNamed records name r
      × (r.enabled ≡ true)
      × (r.trusted ≡ true)
      × (is_invocable user r ≡ true)
unfolding resolve
resolve-IsNamed records name user r h =
    let c : (q : SkillRecord) × (choose name (select (is_match name) records) ≡ ok q)
        × (admit user q ≡ ok r) =
      >>=-ok (choose name (select (is_match name) records)) (admit user) h in
    let a : (c.0 ≡ r)
        × (c.0.enabled ≡ true)
        × (c.0.trusted ≡ true)
        × (is_invocable user c.0 ≡ true) =
      admit-ok user c.0 r c.2 in
    coe 0 1
      (i.
        IsNamed records name (a.0 i)
        × ((a.0 i).enabled ≡ true)
        × ((a.0 i).trusted ≡ true)
        × (is_invocable user (a.0 i) ≡ true))
      (
        choose-IsNamed records name c.0 (choose-ok name (select (is_match name) records) c.0 c.1),
        a.1,
        a.2,
        a.3,
      )
