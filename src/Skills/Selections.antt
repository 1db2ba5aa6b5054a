-- ===== src/Skills/Selections.antt =====
-- Lemmas on lists that are selected by a test or pass one, for the tool lists and catalogs of skills.
use general_agent_design.Common.{
  String, ◌≡◌, refl, Bool, true, ◌&&◌, List, [], ◌∷◌, ◌++◌, arith, eq_iff, eq_refl, contains,
  select, all,
}

pub contains-select :
    (p : String → Bool) (n : String) (xs : List String)
    → contains n (select p xs) ≡ (contains n xs && p n)
contains-select p n [] = refl
contains-select p n (x ∷ xs) = ground (arith, eq_iff n x, contains-select p n xs)

pub select_cong :
    {p q : String → Bool}
    → ((n : String) → p n ≡ q n)
    → (xs : List String) → select p xs ≡ select q xs
select_cong h [] = refl
select_cong h (x ∷ xs) = ground (arith, h x, select_cong h xs)

pub select-select :
    (p q : String → Bool) (xs : List String) → select q (select p xs) ≡ select (λ n. p n && q n) xs
select-select p q [] = refl
select-select p q (x ∷ xs) = ground (arith, select-select p q xs)

-- Selecting what is in a list that has all of them keeps them all.
pub select_all :
    (xs ys : List String)
    → ((n : String) → contains n xs ≡ true → contains n ys ≡ true)
    → select (λ n. contains n ys) xs ≡ xs
select_all [] ys h = refl
select_all (x ∷ xs) ys h =
    ground (arith, h x, eq_refl x, select_all xs ys (λ n m. h n (ground (arith, m))))

-- All of two lists pass a test if all of each do.
pub all-append {ℓ} :
    {A : Type ℓ} (p : A → Bool) (xs ys : List A) → all p (xs ++ ys) ≡ (all p xs && all p ys)
all-append p [] ys = refl
all-append p (x ∷ xs) ys = ground (arith, all-append p xs ys)
