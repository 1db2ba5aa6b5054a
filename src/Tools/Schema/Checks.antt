-- ===== src/Tools/Schema/Checks.antt =====
-- The tests of a single value in agent-harness/src/agent_harness/tools/runtime.py against what they test.
use general_agent_design.Common.{
  String, ◌≡◌, refl, inl, inr, Bool, true, Option, none, some, List, [], ◌∷◌, contains, is_some,
  Option-cases, arith, eq_refl, eq_iff, sym, ap, ◌∙◌,
}
use general_agent_design.Domain.Errors.{ok, >>=-ok}
use general_agent_design.Domain.Json.{Value, bool, int, float, text, array, dict, Elements, Members}
use general_agent_design.Domain.Numbers.{find_member}
use general_agent_design.Tools.Schema.{
  Facets, Expected, object_type, array_type, string_type, integer_type, number_type, boolean_type,
  unchecked, Python, Checked, unless, listed, check_enum, check_length, validate_number_bounds,
  check_float, by_type, check_required, at,
}
use general_agent_design.Tools.Schema.Conformity.{
  Passes, IsInRange, HasType, object_ok, array_ok, string_ok, integer_ok, whole_ok, float_ok,
  boolean_ok, unchecked_ok,
}

pub unless-ok :
    {A : Type 0} (o : Option A) (bad : A → Bool) (m : String)
    → unless o bad m ≡ ok tt
    → Passes o bad
unless-ok none bad m e a p = absurd cc
unless-ok (some b) bad m e a p = ground arith

pub unless-Passes :
    {A : Type 0} (o : Option A) (bad : A → Bool) (m : String)
    → Passes o bad
    → unless o bad m ≡ ok tt
unless-Passes none bad m p = refl
unless-Passes (some b) bad m p = rw (p b refl)

module _ (py : Python) where
  pub validate_number_bounds-ok :
      (f : Facets) (v : Value) (path : String)
      → validate_number_bounds py f v path ≡ ok tt
      → IsInRange py f v
  unfolding validate_number_bounds
  validate_number_bounds-ok f v path e =
      let (u, low, high) = >>=-ok _ _ e in
      record { not_below = unless-ok _ _ _ low; not_above = unless-ok _ _ _ high }

  pub in_range :
      (v : Value) (f : Facets) (path : String)
      → IsInRange py f v
      → validate_number_bounds py f v path ≡ ok tt
  unfolding validate_number_bounds
  in_range v f path r = rw (
    unless-Passes _ _ (at path " is below minimum") r.not_below,
    unless-Passes _ _ (at path " exceeds maximum") r.not_above,
  )

  pub by_type-HasType :
      (x : Expected) (v : Value) (f : Facets) (path : String) (nested : Checked)
      → by_type py x v f path nested ≡ ok tt
      → ((ms : Members)
          → x ≡ object_type
          → v ≡ dict ms
          → (k : String) → contains k f.required ≡ true
          → is_some (find_member k ms) ≡ true)
      → HasType py f x v
  unfolding by_type
  by_type-HasType object_type (dict ms) f path nested e r = object_ok (r ms refl refl)
  by_type-HasType object_type v f path nested e r = absurd cc
  by_type-HasType array_type (array vs) f path nested e r = array_ok
  by_type-HasType array_type v f path nested e r = absurd cc
  by_type-HasType string_type (text s) f path nested e r =
      let (u, short, long) = >>=-ok _ _ e in
      string_ok (record { not_shorter = unless-ok _ _ _ short; not_longer = unless-ok _ _ _ long })
  by_type-HasType string_type v f path nested e r = absurd cc
  by_type-HasType integer_type (int n) f path nested e r =
      integer_ok (validate_number_bounds-ok f (int n) path e)
  by_type-HasType integer_type v f path nested e r = absurd cc
  by_type-HasType number_type (int n) f path nested e r =
      elim (Option-cases (py.floats.to_float n)) [
        | inl p ↦ absurd (ground (arith, p))
        | inr (x, p) ↦ whole_ok p (
            validate_number_bounds-ok f (float x) path
              (sym (ap (λ o. check_float py o f path) p) ∙ e))
      ]
  by_type-HasType number_type (float x) f path nested e r =
      float_ok (validate_number_bounds-ok f (float x) path e)
  by_type-HasType number_type v f path nested e r = absurd cc
  by_type-HasType boolean_type (bool b) f path nested e r = boolean_ok
  by_type-HasType boolean_type v f path nested e r = absurd cc
  by_type-HasType unchecked v f path nested e r = unchecked_ok

  pub by_type_dict :
      (x : Expected) (ms : Members) (f : Facets) (path : String) (nested : Checked)
      → by_type py x (dict ms) f path nested ≡ ok tt
      → x ≡ object_type
      → nested ≡ ok tt
  unfolding by_type
  by_type_dict object_type ms f path nested e p = e
  by_type_dict x ms f path nested e p = absurd cc

  pub by_type_array :
      (x : Expected) (vs : Elements) (f : Facets) (path : String) (nested : Checked)
      → by_type py x (array vs) f path nested ≡ ok tt
      → x ≡ array_type
      → nested ≡ ok tt
  unfolding by_type
  by_type_array array_type vs f path nested e p = e
  by_type_array x vs f path nested e p = absurd cc

  -- What has its type passes, once its parts do.
  pub HasType-by_type :
      (x : Expected) (v : Value) (f : Facets) (path : String) (nested : Checked)
      → HasType py f x v
      → ((ms : Members) → x ≡ object_type → v ≡ dict ms → nested ≡ ok tt)
      → ((vs : Elements) → x ≡ array_type → v ≡ array vs → nested ≡ ok tt)
      → by_type py x v f path nested ≡ ok tt
  unfolding by_type check_length validate_number_bounds
  HasType-by_type x v f path nested (object_ok r) d a = d _ refl refl
  HasType-by_type x v f path nested array_ok d a = a _ refl refl
  HasType-by_type x v f path nested (string_ok r) d a = rw (
    unless-Passes _ _ (at path " is shorter than minLength") r.not_shorter,
    unless-Passes _ _ (at path " exceeds maxLength") r.not_longer,
  )
  HasType-by_type x v f path nested (integer_ok r) d a = in_range _ f path r
  HasType-by_type x v f path nested (whole_ok p r) d a = rw (p, in_range _ f path r)
  HasType-by_type x v f path nested (float_ok r) d a = in_range _ f path r
  HasType-by_type x v f path nested boolean_ok d a = refl
  HasType-by_type x v f path nested unchecked_ok d a = refl

  pub check_enum-ok :
      (f : Facets) (v : Value) (path : String)
      → check_enum py f v path ≡ ok tt
      → (vs : List Value) → f.enum ≡ some vs
      → listed py v vs ≡ true
  unfolding check_enum
  check_enum-ok f v path e vs p = ground (arith, p)

  pub check_enum_listed :
      (f : Facets) (v : Value) (path : String)
      → ((vs : List Value) → f.enum ≡ some vs → listed py v vs ≡ true)
      → check_enum py f v path ≡ ok tt
  unfolding check_enum
  check_enum_listed f v path h = elim (Option-cases f.enum) [
    | inl p ↦ rw p
    | inr (vs, p) ↦ rw (p, h vs p)
  ]

  pub check_required-ok :
      (ks : List String) (ms : Members) (path k : String)
      → check_required py ks ms path ≡ ok tt
      → contains k ks ≡ true
      → is_some (find_member k ms) ≡ true
  unfolding check_required
  check_required-ok [] ms path k e c = absurd cc
  check_required-ok (j ∷ ks) ms path k e c =
      ground (arith, eq_iff k j, check_required-ok ks ms path k)

  pub check_required_has :
      (ks : List String) (ms : Members) (path : String)
      → ((k : String) → contains k ks ≡ true → is_some (find_member k ms) ≡ true)
      → check_required py ks ms path ≡ ok tt
  unfolding check_required
  check_required_has [] ms path h = refl
  check_required_has (j ∷ ks) ms path h =
      ground (arith, eq_refl j, h j, check_required_has ks ms path (λ k c. h k (ground (arith, c))))
