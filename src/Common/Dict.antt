-- ===== src/Common/Dict.antt =====
-- Python's `dict` with text keys: insertion order is kept, and an update stays in its place.
use Prim.Native.Nat.{ℕ, suc, ◌+◌, ◌≤◌}
use Prim.Native.String.{String}
use mathlib.Core.Path.{◌≡◌, refl}
use mathlib.Core.Bool.{Bool}
use mathlib.Core.Option.{Option, none, some}
use mathlib.Core.List.{List, [], ◌∷◌, map}
use native.Mathlib.Omega.{arith}
use text.Mathlib.Text.{◌==◌}
use text.Mathlib.TextEquality.{eq_iff}
use general_agent_design.Common.Tests.{if◌then◌else◌, is_some}
use general_agent_design.Common.Lists.{length}

abbrev pub Dict {ℓ} : Type ℓ → Type ℓ
Dict V = List (String × V)

-- The weight of what stands under a key, 0 on a missing key.
abbrev pub weight_of {ℓ} : {V : Type ℓ} → (V → ℕ) → Option V → ℕ
weight_of w none = 0
weight_of w (some v) = w v

module _ {ℓ} {V : Type ℓ} where
  -- d.get(k)
  unfoldable pub lookup : String → Dict V → Option V
  lookup k [] = none
  lookup k ((j, v) ∷ d) = if j == k then some v else lookup k d

  -- k in d
  abbrev pub has : String → Dict V → Bool
  has k d = is_some (lookup k d)

  -- d[k] = v
  unfoldable pub insert : String → V → Dict V → Dict V
  insert k v [] = (k, v) ∷ []
  insert k v ((j, w) ∷ d) = if j == k then (j, v) ∷ d else (j, w) ∷ insert k v d

  abbrev pub keys : Dict V → List String
  keys d = map (λ e. e.0) d

  -- The weights of all values together.
  unfoldable pub total : (V → ℕ) → Dict V → ℕ
  total w [] = 0
  total w ((j, v) ∷ d) = w v + total w d

  pub lookup-insert :
      (k j : String) (v : V) (d : Dict V)
      → lookup j (insert k v d) ≡ (if k == j then some v else lookup j d)
  unfolding lookup insert
  lookup-insert k j v [] = refl
  lookup-insert k j v ((i, w) ∷ d) =
      ground (arith, eq_iff k j, eq_iff i k, eq_iff i j, lookup-insert k j v d)

  -- A new key adds one entry, an old one none.
  pub length-insert :
      (k : String) (v : V) (d : Dict V)
      → length (insert k v d) ≡ (if has k d then length d else suc (length d))
  unfolding lookup insert
  length-insert k v [] = refl
  length-insert k v ((i, w) ∷ d) = ground (arith, length-insert k v d)

  pub total-insert :
      (w : V → ℕ) (k : String) (v : V) (d : Dict V)
      → total w (insert k v d) + weight_of w (lookup k d) ≡ total w d + w v
  unfolding lookup insert total
  total-insert w k v [] = omega arith
  total-insert w k v ((i, u) ∷ d) = ground (arith, total-insert w k v d)

  pub weight_of-le-total :
      (w : V → ℕ) (k : String) (d : Dict V) → weight_of w (lookup k d) ≤ total w d
  unfolding lookup total
  weight_of-le-total w k [] = omega arith
  weight_of-le-total w k ((i, u) ∷ d) = ground (arith, weight_of-le-total w k d)
