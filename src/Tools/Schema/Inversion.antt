-- ===== src/Tools/Schema/Inversion.antt =====
-- The tests of the parts of a list or a dict (_validate_schema_value and _validate_object of
-- agent-harness/src/agent_harness/tools/runtime.py), taken apart.
use general_agent_design.Common.{
  ℕ, suc, String, ◌≡◌, refl, true, Option, none, some, contains, is_some, arith,
}
use general_agent_design.Domain.Errors.{ok, ◌>>=◌, >>=-ok}
use general_agent_design.Domain.Json.{Value, dict, Elements, element, Members, no_member, member}
use general_agent_design.Domain.Numbers.{find_member}
use general_agent_design.Tools.Schema.{
  Facets, Schema, schema, ItemSchema, items, Properties, find_property, Expected, object_type,
  expected, Python, Checked, check_enum, by_type, check_required, known_or, validate_value,
  validate_elements, validate_members, index_path, field_path,
}
use general_agent_design.Tools.Schema.Conformity.{
  IsEntry, HasType, here, there, object_ok, unchecked_ok,
}
use general_agent_design.Tools.Schema.Checks.{by_type_dict}

module _ (py : Python) where
  pub known_or-ok :
      (o : Option Schema) (f : Facets) (k path : String) (check : Schema → Checked)
      → known_or py o f k path check ≡ ok tt
      → ((s : Schema) → o ≡ some s → check s ≡ ok tt) × (o ≡ none → f.additional_properties ≡ true)
  known_or-ok none f k path check e = (λ s p. absurd cc, λ p. ground arith)
  known_or-ok (some t) f k path check e = (λ s p. ground (arith, p, e), λ p. absurd cc)

  pub validate_members-member :
      (j : String) (v : Value) (ms : Members) (f : Facets) (ps : Properties) (path : String)
      → validate_members py (member j v ms) f ps path ≡ ok tt
      → (known_or py (find_property j ps) f j path (λ s. validate_value py v s (field_path path j))
          ≡ ok tt)
        × (validate_members py ms f ps path ≡ ok tt)
  unfolding validate_value
  validate_members-member j v ms f ps path e =
      let (u, first, rest) =
        >>=-ok
          (known_or py (find_property j ps) f j path
            (λ s. validate_value py v s (field_path path j)))
          (λ _. validate_members py ms f ps path) e in
      (first, rest)

  pub validate_value-dict :
      (ms : Members) (f : Facets) (it : ItemSchema) (ps : Properties) (path : String)
      → validate_value py (dict ms) (schema f it ps) path ≡ ok tt
      → expected f.type ≡ object_type
      → (check_required py f.required ms path ≡ ok tt) × (validate_members py ms f ps path ≡ ok tt)
  unfolding validate_value
  validate_value-dict ms f it ps path e x =
      let nested : Checked =
        check_required py f.required ms path >>= λ _. validate_members py ms f ps path in
      let (u, enum, typed) =
        >>=-ok (check_enum py f (dict ms) path)
          (λ _. by_type py (expected f.type) (dict ms) f path nested) e in
      let (a, required, rest) =
        >>=-ok (check_required py f.required ms path) (λ _. validate_members py ms f ps path)
          (by_type_dict py (expected f.type) ms f path nested typed x) in
      (required, rest)

  pub validate_elements-element :
      (v : Value) (vs : Elements) (s : Schema) (path : String) (n : ℕ)
      → validate_elements py (element v vs) (items s) path n ≡ ok tt
      → (validate_value py v s (index_path py path n) ≡ ok tt)
        × (validate_elements py vs (items s) path (suc n) ≡ ok tt)
  unfolding validate_value
  validate_elements-element v vs s path n e =
      let (u, first, rest) =
        >>=-ok (validate_value py v s (index_path py path n))
          (λ _. validate_elements py vs (items s) path (suc n)) e in
      (first, rest)

  pub known_or_ok :
      (o : Option Schema) (f : Facets) (k path : String) (check : Schema → Checked)
      → ((s : Schema) → o ≡ some s → check s ≡ ok tt)
      → (o ≡ none → f.additional_properties ≡ true)
      → known_or py o f k path check ≡ ok tt
  known_or_ok none f k path check h c = rw (c refl)
  known_or_ok (some s) f k path check h c = h s refl

  pub required_of :
      {f : Facets} {x : Expected} {ms : Members}
      → HasType py f x (dict ms)
      → x ≡ object_type
      → (k : String) → contains k f.required ≡ true
      → is_some (find_member k ms) ≡ true
  required_of (object_ok r) p = r
  required_of unchecked_ok p = absurd cc

  -- Entries that pass are allowed.
  pub validate_members-closed :
      (k : String) (w : Value) (ms : Members) (f : Facets) (ps : Properties) (path : String)
      → validate_members py ms f ps path ≡ ok tt
      → IsEntry k w ms
      → find_property k ps ≡ none
      → f.additional_properties ≡ true
  validate_members-closed k w (member j v ms) f ps path e here p =
      let (first, rest) = validate_members-member j v ms f ps path e in
      (known_or-ok _ f _ path _ first).1 p
  validate_members-closed k w (member j v ms) f ps path e (there i) p =
      let (first, rest) = validate_members-member j v ms f ps path e in
      validate_members-closed k w ms f ps path rest i p
  validate_members-closed k w no_member f ps path e i p = elim i [ ]
