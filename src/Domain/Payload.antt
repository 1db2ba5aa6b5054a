-- ===== src/Domain/Payload.antt =====
-- Values of a JSON object that is read back, by their types: what a dataclass's fields are filled with. A
-- value of another type than the program writes is an error at once.
use general_agent_design.Common.{ℕ, String, ◌≡◌, refl, ap, ◌∙◌, Option, none, some, List, [], ◌∷◌}
use general_agent_design.Common.Dict.{Dict}
use general_agent_design.Domain.Errors.{Result, ok, err, other, ◌>>=◌}
use general_agent_design.Domain.Json.{
  Value, null, int, pos, text, array, dict, Elements, no_element, element, Members, no_member,
  member,
}

abbrev pub wrong_type {ℓ} : {A : Type ℓ} → Result A
wrong_type = err (other "TypeError")

abbrev pub read_text : Option Value → Result String
read_text (some (text s)) = ok s
read_text _ = wrong_type

-- A field with a default
abbrev pub read_text_or : String → Option Value → Result String
read_text_or d none = ok d
read_text_or d (some v) = read_text (some v)

abbrev pub read_optional : Option Value → Result (Option String)
read_optional none = ok none
read_optional (some null) = ok none
read_optional (some (text s)) = ok (some s)
read_optional _ = wrong_type

abbrev pub write_optional : Option String → Value
write_optional none = null
write_optional (some s) = text s

pub read-write_optional : (o : Option String) → read_optional (some (write_optional o)) ≡ ok o
read-write_optional none = refl
read-write_optional (some s) = refl

abbrev pub read_nat : Option Value → Result ℕ
read_nat (some (int (pos n))) = ok n
read_nat _ = wrong_type

unfoldable pub texts_of : Elements → Result (List String)
texts_of no_element = ok []
texts_of (element v vs) = read_text (some v) >>= λ s. texts_of vs >>= λ ss. ok (s ∷ ss)

unfoldable pub write_texts : List String → Elements
write_texts [] = no_element
write_texts (s ∷ ss) = element (text s) (write_texts ss)

pub texts_of-write_texts : (ss : List String) → texts_of (write_texts ss) ≡ ok ss
unfolding texts_of write_texts
texts_of-write_texts [] = refl
texts_of-write_texts (s ∷ ss) = ap (λ r. r >>= λ ts. ok (s ∷ ts)) (texts_of-write_texts ss)

-- tuple(value or ())
abbrev pub read_texts : Option Value → Result (List String)
read_texts none = ok []
read_texts (some null) = ok []
read_texts (some (array vs)) = texts_of vs
read_texts _ = wrong_type

unfoldable pub dict_of : Members → Dict Value
dict_of no_member = []
dict_of (member k v ms) = (k, v) ∷ dict_of ms

unfoldable pub write_dict : Dict Value → Members
write_dict [] = no_member
write_dict ((k, v) ∷ d) = member k v (write_dict d)

pub dict_of-write_dict : (d : Dict Value) → dict_of (write_dict d) ≡ d
unfolding dict_of write_dict
dict_of-write_dict [] = refl
dict_of-write_dict ((k, v) ∷ d) = ap (◌∷◌ (k, v)) (dict_of-write_dict d)

abbrev pub read_dict : Option Value → Result (Dict Value)
read_dict (some (dict ms)) = ok (dict_of ms)
read_dict _ = wrong_type

-- The chain of conversions, from what each of them gives.
pub chained :
    {A B : Type 0} (r : Result A) (a : A) (f : A → Result B) (b : Result B)
    → r ≡ ok a
    → f a ≡ b
    → (r >>= f) ≡ b
chained r a f b e g = ap (λ x. x >>= f) e ∙ g
