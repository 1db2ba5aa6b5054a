-- ===== src/Agent/Action.antt =====
-- Methods that change the state of a loop and may raise; what was written before a raise stays.
use general_agent_design.Common.{◌≡◌, refl}
use general_agent_design.Domain.Errors.{Exception, Result, ok, err}

abbrev pub Action : Type 0 → Type 0 → Type 0
Action S A = S → Result A × S

module _ {S : Type 0} where
  unfoldable pub pure : {A : Type 0} → A → Action S A
  pure a s = (ok a, s)

  unfoldable pub raise : {A : Type 0} → Exception → Action S A
  raise e s = (err e, s)

  unfoldable pub lift : {A : Type 0} → Result A → Action S A
  lift r s = (r, s)

  unfoldable pub gets : {A : Type 0} → (S → A) → Action S A
  gets f s = (ok (f s), s)

  unfoldable pub modify : (S → S) → Action S (Unit {0})
  modify f s = (ok tt, f s)

  abbrev pub and_then : {A B : Type 0} → Result A × S → (A → Action S B) → Result B × S
  and_then (ok a, s) f = f a s
  and_then (err e, s) f = (err e, s)

  infixl 5 ◌>>=◌ ◌>>◌
  unfoldable pub ◌>>=◌ : {A B : Type 0} → Action S A → (A → Action S B) → Action S B
  unfolding pure raise lift gets modify
  ◌>>=◌ m f s = and_then (m s) f

  abbrev pub ◌>>◌ : {A B : Type 0} → Action S A → Action S B → Action S B
  m >> n = m >>= λ _. n

-- Inversion of a bind that returns.
pub and_then-ok :
    {S A B : Type 0} (r : Result A × S) (f : A → Action S B) {b : B} {t : S}
    → and_then r f ≡ (ok b, t)
    → (a : A) × (s : S) × (r ≡ (ok a, s)) × (f a s ≡ (ok b, t))
and_then-ok (ok a, s) f h = (a, s, refl, h)
and_then-ok (err e, s) f h = cc

pub >>=-ok :
    {S A B : Type 0} (m : Action S A) (f : A → Action S B) (s : S) {b : B} {t : S}
    → (m >>= f) s ≡ (ok b, t)
    → (a : A) × (u : S) × (m s ≡ (ok a, u)) × (f a u ≡ (ok b, t))
unfolding ◌>>=◌
>>=-ok m f s h = and_then-ok (m s) f h
