-- ===== src/Tools/Schema/Agreement.antt =====
-- The validation of agent-harness/src/agent_harness/tools/runtime.py and the conformity of a value.
use general_agent_design.Common.{ℕ, suc, String, ◌≡◌, refl, true, none, some, is_some, ◌↔◌, sym}
use general_agent_design.Domain.Errors.{ok, ◌>>=◌, >>=-ok}
use general_agent_design.Domain.Json.{
  Value, array, dict, Elements, no_element, element, Members, no_member, member,
}
use general_agent_design.Domain.Numbers.{find_member}
use general_agent_design.Tools.Schema.{
  Facets, Schema, schema, ItemSchema, no_items, items, Properties, find_property, expected, Python,
  check_required, validate_value, validate_elements, validate_members, index_path, field_path,
}
use general_agent_design.Tools.Schema.Conformity.{
  IsElement, IsEntry, Conforms, here, there, conforms,
}
use general_agent_design.Tools.Schema.Checks.{
  by_type-HasType, by_type_array, HasType-by_type, check_enum-ok, check_enum_listed,
  check_required-ok, check_required_has,
}
use general_agent_design.Tools.Schema.Inversion.{
  known_or-ok, validate_members-member, validate_value-dict, validate_elements-element, known_or_ok,
  required_of, validate_members-closed,
}

-- What stands in a list, in a dict, and under "items".
abbrev elements_in : Value → Elements
elements_in (array vs) = vs
elements_in v = no_element

abbrev members_in : Value → Members
members_in (dict ms) = ms
members_in v = no_member

abbrev items_in : Schema → ItemSchema → Schema
items_in d (items s) = s
items_in d no_items = d

module _ (py : Python) where
  mutual
    unfolding validate_value

    sound :
        (v : Value) (s : Schema) (path : String)
        → validate_value py v s path ≡ ok tt
        → Conforms py v s
    sound (array vs) (schema f it ps) path e =
        let (u, enum, typed) = >>=-ok _ _ e in
        conforms (check_enum-ok py f (array vs) path enum)
          (by_type-HasType py (expected f.type) (array vs) f path _ typed (λ ms x p. absurd cc))
          (λ ws s w x p q i.
            sound_elements vs it path 0 (by_type_array py (expected f.type) vs f path _ typed x) s w
              q (coe 0 1 (j. IsElement w (elements_in (sym p j))) i))
          (λ ms k w s x p. absurd cc) (λ ms k w x p. absurd cc)
    sound (dict ms) (schema f it ps) path e =
        let (u, enum, typed) = >>=-ok _ _ e in
        conforms (check_enum-ok py f (dict ms) path enum)
          (by_type-HasType py (expected f.type) (dict ms) f path _ typed (λ ns x p k c.
            let (required, rest) = validate_value-dict py ms f it ps path e x in
            coe 0 1 (j. is_some (find_member k (members_in (p j))) ≡ true)
              (check_required-ok py f.required ms path k required c)))
          (λ ws s w x p. absurd cc)
          (λ ns k w s x p i q.
            let (required, rest) = validate_value-dict py ms f it ps path e x in
            sound_members ms f ps path rest k w s
              (coe 0 1 (j. IsEntry k w (members_in (sym p j))) i) q)
          (λ ns k w x p i q.
            let (required, rest) = validate_value-dict py ms f it ps path e x in
            validate_members-closed py k w ms f ps path rest
              (coe 0 1 (j. IsEntry k w (members_in (sym p j))) i) q)
    sound v (schema f it ps) path e =
        let (u, enum, typed) = >>=-ok _ _ e in
        conforms (check_enum-ok py f v path enum)
          (by_type-HasType py (expected f.type) v f path (ok tt) typed (λ ms x p. absurd cc))
          (λ ws s w x p. absurd cc) (λ ms k w s x p. absurd cc) (λ ms k w x p. absurd cc)

    sound_elements :
        (vs : Elements) (it : ItemSchema) (path : String) (n : ℕ)
        → validate_elements py vs it path n ≡ ok tt
        → (s : Schema) (w : Value) → it ≡ items s
        → IsElement w vs
        → Conforms py w s
    sound_elements (element v vs) (items t) path n e s w q here =
        let (first, rest) = validate_elements-element py v vs t path n e in
        coe 0 1 (j. Conforms py v (items_in t (q j))) (sound v t (index_path py path n) first)
    sound_elements (element v vs) (items t) path n e s w q (there i) =
        let (first, rest) = validate_elements-element py v vs t path n e in
        sound_elements vs (items t) path (suc n) rest s w q i
    sound_elements (element v vs) no_items path n e s w q i = absurd cc
    sound_elements no_element it path n e s w q i = elim i [ ]

    sound_members :
        (ms : Members) (f : Facets) (ps : Properties) (path : String)
        → validate_members py ms f ps path ≡ ok tt
        → (k : String) (w : Value) (s : Schema) → IsEntry k w ms
        → find_property k ps ≡ some s
        → Conforms py w s
    sound_members (member j v ms) f ps path e k w s here p =
        let (first, rest) = validate_members-member py j v ms f ps path e in
        sound v s (field_path path k) ((known_or-ok py _ f _ path _ first).0 s p)
    sound_members (member j v ms) f ps path e k w s (there i) p =
        let (first, rest) = validate_members-member py j v ms f ps path e in
        sound_members ms f ps path rest k w s i p
    sound_members no_member f ps path e k w s i p = elim i [ ]

  mutual
    unfolding validate_value

    complete :
        (v : Value) (s : Schema) (path : String)
        → Conforms py v s
        → validate_value py v s path ≡ ok tt
    complete (array vs) (schema f it ps) path (conforms enum typed parts entries closed) = rw (
      check_enum_listed py f (array vs) path enum,
      HasType-by_type py (expected f.type) (array vs) f path _ typed (λ ms x p. absurd cc)
          (λ ws x p. complete_elements vs it path 0 (λ s w q i. parts vs s w x refl q i)),
    )
    complete (dict ms) (schema f it ps) path (conforms enum typed parts entries closed) = rw (
      check_enum_listed py f (dict ms) path enum,
      HasType-by_type py (expected f.type) (dict ms) f path
          (check_required py f.required ms path >>= λ _. validate_members py ms f ps path) typed
          (λ ns x p. rw (
            check_required_has py f.required ms path (required_of py typed x),
            complete_members ms f ps path (λ k w s i q. entries ms k w s x refl i q)
                (λ k w i q. closed ms k w x refl i q),
          ))
          (λ ws x p. absurd cc),
    )
    complete v (schema f it ps) path (conforms enum typed parts entries closed) = rw (
      check_enum_listed py f v path enum,
      HasType-by_type py (expected f.type) v f path (ok tt) typed (λ ms x p. refl) (λ ws x p. refl),
    )

    complete_elements :
        (vs : Elements) (it : ItemSchema) (path : String) (n : ℕ)
        → ((s : Schema) (w : Value) → it ≡ items s → IsElement w vs → Conforms py w s)
        → validate_elements py vs it path n ≡ ok tt
    complete_elements no_element it path n h = refl
    complete_elements (element v vs) no_items path n h = refl
    complete_elements (element v vs) (items s) path n h = rw (
      complete v s (index_path py path n) (h s v refl here),
      complete_elements vs (items s) path (suc n) (λ t w p i. h t w p (there i)),
    )

    complete_members :
        (ms : Members) (f : Facets) (ps : Properties) (path : String)
        → ((k : String) (w : Value) (s : Schema)
            → IsEntry k w ms
            → find_property k ps ≡ some s
            → Conforms py w s)
        → ((k : String) (w : Value)
            → IsEntry k w ms
            → find_property k ps ≡ none
            → f.additional_properties ≡ true)
        → validate_members py ms f ps path ≡ ok tt
    complete_members no_member f ps path h c = refl
    complete_members (member k v ms) f ps path h c = rw (
      known_or_ok py (find_property k ps) f k path (λ s. validate_value py v s (field_path path k))
          (λ s p. complete v s (field_path path k) (h k v s here p)) (c k v here),
      complete_members ms f ps path (λ j w s i p. h j w s (there i) p)
          (λ j w i p. c j w (there i) p),
    )

  -- The validator accepts a value exactly if the value conforms to the schema, at whatever path it
  -- reports and in whatever order it looks.
  pub validate_value-Conforms :
      (v : Value) (s : Schema) (path : String)
      → (validate_value py v s path ≡ ok tt) ↔ Conforms py v s
  validate_value-Conforms v s path = (sound v s path, complete v s path)
