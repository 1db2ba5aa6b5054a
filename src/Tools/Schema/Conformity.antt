-- ===== src/Tools/Schema/Conformity.antt =====
-- What it means that a value conforms to a schema, without the order in which
-- agent-harness/src/agent_harness/tools/runtime.py looks at its parts.
use Prim.Native.String
use general_agent_design.Common.{
  String, ◌≡◌, Bool, true, false, Option, none, some, List, contains, is_some,
}
use general_agent_design.Domain.Json.{
  ℤ, pos, Value, bool, int, float, text, array, dict, Elements, element, Members, member,
}
use general_agent_design.Domain.Numbers.{less_ℤ, less, find_member}
use general_agent_design.Tools.Schema.{
  Facets, Schema, schema, ItemSchema, items, Properties, find_property, Expected, object_type,
  array_type, string_type, integer_type, number_type, boolean_type, unchecked, expected, Python,
  listed,
}

pub data IsElement (w : Value) : Elements → Type 0 where
  here : {vs : Elements} → IsElement w (element w vs)
  there : {v : Value} {vs : Elements} → IsElement w vs → IsElement w (element v vs)

pub data IsEntry (k : String) (w : Value) : Members → Type 0 where
  here : {ms : Members} → IsEntry k w (member k w ms)
  there : {j : String} {v : Value} {ms : Members} → IsEntry k w ms → IsEntry k w (member j v ms)

-- The facet is absent, or the value passes it.
abbrev pub Passes {ℓ} : {A : Type ℓ} → Option A → (A → Bool) → Type ℓ
Passes o bad = (a : _) → o ≡ some a → bad a ≡ false

module _ (py : Python) where
  pub record IsInRange (f : Facets) (v : Value) : Type 0 where
    pub not_below : Passes f.minimum (λ m. less py.floats v m)
    pub not_above : Passes f.maximum (λ m. less py.floats m v)

  pub record HasLength (f : Facets) (s : String) : Type 0 where
    pub not_shorter : Passes f.min_length (λ m. less_ℤ (pos (String.count s)) m)
    pub not_longer : Passes f.max_length (λ m. less_ℤ m (pos (String.count s)))

  -- What "type" demands of a value itself.
  pub data HasType (f : Facets) : Expected → Value → Type 0 where
    object_ok :
        {ms : Members}
        → ((k : String) → contains k f.required ≡ true → is_some (find_member k ms) ≡ true)
        → HasType f object_type (dict ms)
    array_ok : {vs : Elements} → HasType f array_type (array vs)
    string_ok : {s : String} → HasLength f s → HasType f string_type (text s)
    integer_ok : {n : ℤ} → IsInRange f (int n) → HasType f integer_type (int n)
    whole_ok :
        {n : ℤ} {x : String}
        → py.floats.to_float n ≡ some x
        → IsInRange f (float x)
        → HasType f number_type (int n)
    float_ok : {x : String} → IsInRange f (float x) → HasType f number_type (float x)
    boolean_ok : {b : Bool} → HasType f boolean_type (bool b)
    unchecked_ok : {v : Value} → HasType f unchecked v

  -- Every item of a list conforms to "items"; every entry of a dict to its property, and if it has
  -- none, more properties are allowed.
  pub data Conforms : Value → Schema → Type 0 where
    conforms :
        {v : Value} {f : Facets} {it : ItemSchema} {ps : Properties}
        → ((vs : List Value) → f.enum ≡ some vs → listed py v vs ≡ true)
        → HasType f (expected f.type) v
        → ((vs : Elements) (s : Schema) (w : Value)
            → expected f.type ≡ array_type
            → v ≡ array vs
            → it ≡ items s
            → IsElement w vs
            → Conforms w s)
        → ((ms : Members) (k : String) (w : Value) (s : Schema)
            → expected f.type ≡ object_type
            → v ≡ dict ms
            → IsEntry k w ms
            → find_property k ps ≡ some s
            → Conforms w s)
        → ((ms : Members) (k : String) (w : Value)
            → expected f.type ≡ object_type
            → v ≡ dict ms
            → IsEntry k w ms
            → find_property k ps ≡ none
            → f.additional_properties ≡ true)
        → Conforms v (schema f it ps)
