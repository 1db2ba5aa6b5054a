-- ===== src/Tools/Schema.antt =====
-- The validation of JSON values in agent-harness/src/agent_harness/tools/runtime.py
-- (_validate_schema_value, _validate_object, _validate_number_bounds). A schema is kept by the keys that
-- these methods read, each with a value of the type that JSON Schema gives to it; a key that is
-- absent is `none`.

pub mod Conformity
pub mod Checks
pub mod Inversion
pub mod Agreement
use Prim.Native.String
use general_agent_design.Common.{
  ℕ, suc, ◌+◌, String, Bool, true, false, not, Option, none, some, List, [], ◌∷◌, any, ◌==◌,
  if◌then◌else◌, is_some,
}
use general_agent_design.Domain.Errors.{Result, ok, err, other, fail, ◌>>=◌, tool_input_validation}
use general_agent_design.Domain.Json.{
  ℤ, pos, Value, null, bool, int, float, text, array, dict, Elements, no_element, element, Members,
  no_member, member,
}
use general_agent_design.Domain.Numbers.{Floats, less_ℤ, less, equal, find_member}

-- The keys of a schema other than "items" and "properties"; `additional_properties` is whether the
-- schema's value is not `False`.
pub record Facets : Type 0 where
  pub type : Option String
  pub enum : Option (List Value)
  pub required : List String
  pub additional_properties : Bool
  pub min_length : Option ℤ
  pub max_length : Option ℤ
  pub minimum : Option Value
  pub maximum : Option Value

-- "items" that are no dict count as absent.
mutual
  pub data Schema : Type 0 where
    schema : Facets → ItemSchema → Properties → Schema

  pub data ItemSchema : Type 0 where
    no_items : ItemSchema
    items : Schema → ItemSchema

  pub data Properties : Type 0 where
    no_property : Properties
    property : String → Schema → Properties → Properties

abbrev pub find_property : String → Properties → Option Schema
find_property k no_property = none
find_property k (property j s ps) = if j == k then some s else find_property k ps

-- The values of "type" that are told apart; any other or no value is `unchecked`.
pub data Expected : Type 0 where
  object_type array_type string_type integer_type number_type boolean_type unchecked : Expected

unfoldable pub expected : Option String → Expected
expected none = unchecked
expected (some t) =
    if t == "object"
    then object_type
    else if t == "array"
    then array_type
    else if t == "string"
    then string_type
    else if t == "integer"
    then integer_type
    else if t == "number"
    then number_type
    else if t == "boolean"
    then boolean_type
    else unchecked

-- What is needed of the language: its floats, and `str` of a value.
pub record Python : Type 0 where
  pub floats : Floats
  pub show : Value → String

abbrev pub Checked : Type 0
Checked = Result (Unit {0})

abbrev pub invalid : String → Checked
invalid m = fail tool_input_validation m

-- A message about the value at a path.
abbrev pub at : String → String → String
at path m = String.◌++◌ path m

abbrev pub field_path : String → String → String
field_path path k = at path (at "." k)

-- The check of a facet, if it is there.
abbrev pub unless {ℓ} : {A : Type ℓ} → Option A → (A → Bool) → String → Checked
unless none bad m = ok tt
unless (some a) bad m = if bad a then invalid m else ok tt

module _ (py : Python) where
  abbrev pub index_path : String → ℕ → String
  index_path path i = at path (at "[" (at (py.show (int (pos i))) "]"))

  -- value in values
  abbrev pub listed : Value → List Value → Bool
  listed v vs = any (λ w. equal py.floats v w) vs

  -- The members of "enum" are shown as the source shows the list.
  abbrev pub as_elements : List Value → Elements
  as_elements [] = no_element
  as_elements (v ∷ vs) = element v (as_elements vs)

  unfoldable pub check_enum : Facets → Value → String → Checked
  check_enum f v path = elim f.enum [
    | none ↦ ok tt
    | some vs ↦
        if listed v vs
        then ok tt
        else invalid (at path (at " must be one of: " (py.show (array (as_elements vs)))))
  ]

  unfoldable pub check_length : Facets → String → String → Checked
  check_length f s path =
      unless f.min_length (λ m. less_ℤ (pos (String.count s)) m)
        (at path " is shorter than minLength")
      >>= λ _.
          unless f.max_length (λ m. less_ℤ m (pos (String.count s))) (at path " exceeds maxLength")

  unfoldable pub validate_number_bounds : Facets → Value → String → Checked
  validate_number_bounds f v path =
      unless f.minimum (λ m. less py.floats v m) (at path " is below minimum") >>= λ _.
      unless f.maximum (λ m. less py.floats m v) (at path " exceeds maximum")

  -- _validate_number_bounds(float(value), ...) for an integer
  abbrev pub check_float : Option String → Facets → String → Checked
  check_float none f path = err (other "int too large to convert to float")
  check_float (some x) f path = validate_number_bounds f (float x) path

  -- The branches on "type"; `nested` is the check of the parts of a list or a dict.
  unfoldable pub by_type : Expected → Value → Facets → String → Checked → Checked
  unfolding check_length validate_number_bounds
  by_type object_type (dict ms) f path nested = nested
  by_type object_type v f path nested = invalid (at path " must be an object")
  by_type array_type (array vs) f path nested = nested
  by_type array_type v f path nested = invalid (at path " must be an array")
  by_type string_type (text s) f path nested = check_length f s path
  by_type string_type v f path nested = invalid (at path " must be a string")
  by_type integer_type (int n) f path nested = validate_number_bounds f (int n) path
  by_type integer_type v f path nested = invalid (at path " must be an integer")
  by_type number_type (int n) f path nested = check_float (py.floats.to_float n) f path
  by_type number_type (float x) f path nested = validate_number_bounds f (float x) path
  by_type number_type v f path nested = invalid (at path " must be a number")
  by_type boolean_type (bool b) f path nested = ok tt
  by_type boolean_type v f path nested = invalid (at path " must be a boolean")
  by_type unchecked v f path nested = ok tt

  unfoldable pub check_required : List String → Members → String → Checked
  check_required [] ms path = ok tt
  check_required (k ∷ ks) ms path =
      if is_some (find_member k ms)
      then check_required ks ms path
      else invalid (at "Missing required argument: " (field_path path k))

  -- The check of the entry under `k`, whose schema is there or not.
  abbrev pub known_or : Option Schema → Facets → String → String → (Schema → Checked) → Checked
  known_or none f k path check =
      if f.additional_properties
      then ok tt
      else invalid (at "Unknown argument: " (field_path path k))
  known_or (some s) f k path check = check s

  -- _validate_schema_value; a dict goes on to _validate_object, a list to its items.
  unfoldable mutual
    pub validate_value : Value → Schema → String → Checked
    validate_value (array vs) (schema f it ps) path = check_enum f (array vs) path >>= λ _.
        by_type (expected f.type) (array vs) f path (validate_elements vs it path 0)
    validate_value (dict ms) (schema f it ps) path = check_enum f (dict ms) path >>= λ _.
        by_type (expected f.type) (dict ms) f path
          (check_required f.required ms path >>= λ _. validate_members ms f ps path)
    validate_value v (schema f it ps) path =
        check_enum f v path >>= λ _. by_type (expected f.type) v f path (ok tt)

    pub validate_elements : Elements → ItemSchema → String → ℕ → Checked
    validate_elements no_element it path i = ok tt
    validate_elements (element v vs) no_items path i = ok tt
    validate_elements (element v vs) (items s) path i =
        validate_value v s (index_path path i) >>= λ _. validate_elements vs (items s) path (suc i)

    pub validate_members : Members → Facets → Properties → String → Checked
    validate_members no_member f ps path = ok tt
    validate_members (member k v ms) f ps path =
        known_or (find_property k ps) f k path (λ s. validate_value v s (field_path path k))
        >>= λ _. validate_members ms f ps path
