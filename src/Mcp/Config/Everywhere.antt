-- ===== src/Mcp/Config/Everywhere.antt =====
-- Predicates on every value of a dict, every element of a list, and whatever a computation returns.
use general_agent_design.Common.{
  String, ◌≡◌, refl, Bool, true, false, List, [], ◌∷◌, ◌++◌, ◌==◌, if◌then◌else◌,
}
use general_agent_design.Common.Dict.{Dict, insert}
use general_agent_design.Mcp.Outcome.{Outcome, good, bad, ◌>>=◌}
use general_agent_design.Mcp.Sorting.{text_leb, insert_by, sort_by}
use general_agent_design.Mcp.Config.{remove}

module _ {ℓ κ} {A : Type ℓ} (P : A → Type κ) where
  abbrev pub Values : Dict A → Type κ
  Values [] = Unit
  Values ((k, v) ∷ d) = P v × Values d

  abbrev pub All : List A → Type κ
  All [] = Unit
  All (x ∷ xs) = P x × All xs

  -- If it returns, what it returns is so.
  abbrev pub Returns : Outcome A → Type κ
  Returns (good a) = P a
  Returns (bad e) = Unit

  pub Returns_at : (m : Outcome A) {a : A} → m ≡ good a → Returns m → P a
  Returns_at m h p = coe 0 1 (i. Returns (h i)) p

  insert_at :
      (b : Bool) (j : String) (v w : A) (d e : Dict A)
      → P v
      → P w
      → Values d
      → Values e
      → Values (if b then (j, v) ∷ d else (j, w) ∷ e)
  insert_at true j v w d e p q s t = (p, s)
  insert_at false j v w d e p q s t = (q, t)

  pub insert-Values : (k : String) (v : A) (d : Dict A) → P v → Values d → Values (insert k v d)
  unfolding insert
  insert-Values k v [] p s = (p, tt)
  insert-Values k v ((j, w) ∷ d) p (q, s) =
      insert_at (j == k) j v w d (insert k v d) p q s (insert-Values k v d p s)

  remove_at :
      (b : Bool) (j : String) (w : A) (d e : Dict A)
      → P w
      → Values d
      → Values e
      → Values (if b then d else (j, w) ∷ e)
  remove_at true j w d e q s t = s
  remove_at false j w d e q s t = (q, t)

  pub remove-Values : (k : String) (d : Dict A) → Values d → Values (remove k d)
  unfolding remove
  remove-Values k [] s = tt
  remove-Values k ((j, w) ∷ d) (q, s) =
      remove_at (j == k) j w d (remove k d) q s (remove-Values k d s)

  pub append-All : (xs ys : List A) → All xs → All ys → All (xs ++ ys)
  append-All [] ys s t = t
  append-All (x ∷ xs) ys (p, s) t = (p, append-All xs ys s t)

  place :
      (b : Bool) (x y : A) (ys zs : List A)
      → P x
      → P y
      → All ys
      → All zs
      → All (if b then x ∷ y ∷ ys else y ∷ zs)
  place true x y ys zs p q s t = (p, (q, s))
  place false x y ys zs p q s t = (q, t)

  insert_by-All : (key : A → String) (x : A) (xs : List A) → P x → All xs → All (insert_by key x xs)
  unfolding insert_by
  insert_by-All key x [] p s = (p, tt)
  insert_by-All key x (y ∷ ys) p (q, s) =
      place (text_leb (key x) (key y)) x y ys (insert_by key x ys) p q s
        (insert_by-All key x ys p s)

  pub sort_by-All : (key : A → String) (xs : List A) → All xs → All (sort_by key xs)
  unfolding sort_by
  sort_by-All key [] s = tt
  sort_by-All key (x ∷ xs) (p, s) = insert_by-All key x (sort_by key xs) p (sort_by-All key xs s)

module _ {ℓ κ λ'} {A : Type ℓ} {B : Type κ} (P : B → Type λ') where
  -- A chain returns what is so if its last part does for whatever its first part returns.
  pub >>=-Returns :
      (m : Outcome A) (f : A → Outcome B)
      → ((a : A) → m ≡ good a → Returns P (f a))
      → Returns P (m >>= f)
  >>=-Returns (good a) f h = h a refl
  >>=-Returns (bad e) f h = tt
