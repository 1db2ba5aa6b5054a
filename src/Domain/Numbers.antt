-- ===== src/Domain/Numbers.antt =====
-- Python's numbers and the equality of JSON values, as the sources use them on decoded JSON. What
-- floats do is a parameter, their literals being kept as texts.
use general_agent_design.Common.{
  ℕ, suc, String, Bool, true, false, ◌&&◌, if◌then◌else◌, Option, none, some, ltb, eqb, ◌==◌,
}
use general_agent_design.Domain.Json.{
  ℤ, pos, negsuc, Value, null, bool, int, float, text, array, dict, Elements, no_element, element,
  Members, no_member, member,
}

abbrev pub less_ℤ : ℤ → ℤ → Bool
less_ℤ (pos a) (pos b) = ltb a b
less_ℤ (pos a) (negsuc b) = false
less_ℤ (negsuc a) (pos b) = true
less_ℤ (negsuc a) (negsuc b) = ltb b a

abbrev pub equal_ℤ : ℤ → ℤ → Bool
equal_ℤ (pos a) (pos b) = eqb a b
equal_ℤ (negsuc a) (negsuc b) = eqb a b
equal_ℤ _ _ = false

-- `float(n)`, which raises for a number that is too large, and comparisons where one side is a float.
pub record Floats : Type 0 where
  pub to_float : ℤ → Option String
  pub less : Value → Value → Bool
  pub equal : Value → Value → Bool

-- The number that `True` and `False` are in a comparison.
abbrev pub number : Value → Value
number (bool true) = int (pos 1)
number (bool false) = int (pos 0)
number v = v

abbrev less_numbers : Floats → Value → Value → Bool
less_numbers f (int a) (int b) = less_ℤ a b
less_numbers f v w = f.less v w

-- v < w
unfoldable pub less : Floats → Value → Value → Bool
less f v w = less_numbers f (number v) (number w)

abbrev equal_scalars : Floats → Value → Value → Bool
equal_scalars f null null = true
equal_scalars f (text s) (text t) = s == t
equal_scalars f (int a) (int b) = equal_ℤ a b
equal_scalars f (float x) (int b) = f.equal (float x) (int b)
equal_scalars f (int a) (float y) = f.equal (int a) (float y)
equal_scalars f (float x) (float y) = f.equal (float x) (float y)
equal_scalars f _ _ = false

abbrev pub member_count : Members → ℕ
member_count no_member = 0
member_count (member k v ms) = suc (member_count ms)

-- d.get(k)
abbrev pub find_member : String → Members → Option Value
find_member k no_member = none
find_member k (member j v ms) = if j == k then some v else find_member k ms

-- v == w: lists by position, dicts by key.
unfoldable mutual
  pub equal : Floats → Value → Value → Bool
  equal f (array vs) (array ws) = equal_elements f vs ws
  equal f (dict ms) (dict ns) = eqb (member_count ms) (member_count ns) && included f ms ns
  equal f v w = equal_scalars f (number v) (number w)

  pub equal_elements : Floats → Elements → Elements → Bool
  equal_elements f no_element no_element = true
  equal_elements f (element v vs) (element w ws) = equal f v w && equal_elements f vs ws
  equal_elements f _ _ = false

  pub included : Floats → Members → Members → Bool
  included f no_member ns = true
  included f (member k v ms) ns =
      elim (find_member k ns) [ none ↦ false | some w ↦ equal f v w ] && included f ms ns
