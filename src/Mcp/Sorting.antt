-- ===== src/Mcp/Sorting.antt =====
-- Python's `sorted` for texts and for values under text keys: by the characters' numbers, equal keys in
-- their old order.
use Prim.Native.Nat.{Ordering}
use Prim.Native.String.{compare}
use general_agent_design.Common.{
  String, ◌≡◌, refl, Bool, true, false, ◌||◌, List, [], ◌∷◌, ◌==◌, contains, if◌then◌else◌, arith,
  eq_iff,
}

-- a <= b
abbrev pub text_leb : String → String → Bool
text_leb a b = elim (compare a b) [ Ordering.gt ↦ false | _ ↦ true ]

module _ {ℓ} {A : Type ℓ} (key : A → String) where
  unfoldable pub insert_by : A → List A → List A
  insert_by x [] = x ∷ []
  insert_by x (y ∷ ys) = if text_leb (key x) (key y) then x ∷ y ∷ ys else y ∷ insert_by x ys

  -- sorted(xs, key=key)
  unfoldable pub sort_by : List A → List A
  sort_by [] = []
  sort_by (x ∷ xs) = insert_by x (sort_by xs)

-- Pairs whose first components differ
abbrev pub sort_pairs : List (String × String) → List (String × String)
sort_pairs ps = sort_by (λ p. p.0) ps

-- set(xs)
unfoldable pub distinct : List String → List String
distinct [] = []
distinct (x ∷ xs) = let rest = distinct xs in if contains x rest then rest else x ∷ rest

contains-insert_by :
    (n x : String) (xs : List String)
    → contains n (insert_by (λ s. s) x xs) ≡ (n == x || contains n xs)
unfolding insert_by
contains-insert_by n x [] = refl
contains-insert_by n x (y ∷ ys) = ground (arith, contains-insert_by n x ys)

pub contains-sort_by :
    (n : String) (xs : List String) → contains n (sort_by (λ s. s) xs) ≡ contains n xs
unfolding sort_by
contains-sort_by n [] = refl
contains-sort_by n (x ∷ xs) =
    ground (arith, contains-insert_by n x (sort_by (λ s. s) xs), contains-sort_by n xs)

pub contains-distinct : (n : String) (xs : List String) → contains n (distinct xs) ≡ contains n xs
unfolding distinct
contains-distinct n [] = refl
contains-distinct n (x ∷ xs) =
    ground (arith, eq_iff n x, contains-distinct n xs, contains-distinct x xs)
