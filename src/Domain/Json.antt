-- ===== src/Domain/Json.antt =====
-- JSON values as Python's `json` module reads them (`dict[str, Any]` throughout the sources), with
-- `isinstance` as tests. A float is kept as its literal.
use general_agent_design.Common.{ℕ, String, Bool, Option, none, some, List, [], ◌∷◌}
use general_agent_design.Common.Dict.{Dict}

-- `negsuc n` is -(n + 1).
pub data ℤ : Type 0 where
  pos : ℕ → ℤ
  negsuc : ℕ → ℤ

mutual
  -- What json.loads returns.
  pub data Value : Type 0 where
    null : Value
    bool : Bool → Value
    int : ℤ → Value
    float : String → Value
    text : String → Value
    array : Elements → Value
    dict : Members → Value

  pub data Elements : Type 0 where
    no_element : Elements
    element : Value → Elements → Elements

  pub data Members : Type 0 where
    no_member : Members
    member : String → Value → Members → Members

abbrev pub elements_of : Elements → List Value
elements_of no_element = []
elements_of (element v vs) = v ∷ elements_of vs

-- The arguments of a tool call.
abbrev pub Arguments : Type 0
Arguments = Dict Value

-- `value is not None`
abbrev pub present : Option Value → Option Value
present (some null) = none
present o = o

-- [..] if isinstance(value, list) else []
abbrev pub list_or_empty : Option Value → List Value
list_or_empty (some (array vs)) = elements_of vs
list_or_empty _ = []
