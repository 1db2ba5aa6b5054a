-- ===== src/Skills/Catalog/Limits.antt =====
-- What a catalog shows, and how long it is (build_catalog of
-- agent-harness/src/agent_harness/skills/catalog.py).
use Prim.Native.String.{count}
use general_agent_design.Common.{
  ℕ, ◌≤◌, String, ◌≡◌, refl, sym, ap, ◌∙◌, Bool, true, false, not, List, [], ◌∷◌, ◌++◌, map, select,
  select-append, append_assoc, append-nil, ltb, if◌then◌else◌, arith,
}
use general_agent_design.Compaction.{join_lines}
use general_agent_design.Skills.Models.{SkillRecord, SkillDiagnostic, SkillCatalogSnapshot}
use general_agent_design.Skills.Catalog.{
  Building, empty_catalog, entry, is_hidden, consider, gather, build_catalog,
}

abbrev pub is_shown : SkillRecord → Bool
is_shown r = not (is_hidden r)

-- A list is split in two, in order: each element goes to the one or to the other.
pub data Splits : List SkillRecord → List SkillRecord → List SkillRecord → Type 0 where
  none_left : Splits [] [] []
  to_first :
      (r : SkillRecord) {rs xs ys : List SkillRecord}
      → Splits rs xs ys
      → Splits (r ∷ rs) (r ∷ xs) ys
  to_second :
      (r : SkillRecord) {rs xs ys : List SkillRecord}
      → Splits rs xs ys
      → Splits (r ∷ rs) xs (r ∷ ys)

-- The lists after the records of `seen`, of which those in `left` are omitted.
record IsBuilt (max_chars : ℕ) (seen : List SkillRecord) (b : Building) : Type 0 where
  left : List SkillRecord
  listed : b.entries ≡ map entry b.included
  short : count (join_lines b.entries) ≤ max_chars
  split : Splits (select is_shown seen) b.included left
  named : b.omitted ≡ map (λ r. r.skill_id) left

Splits-first :
    (r : SkillRecord) (rs xs ys : List SkillRecord)
    → Splits rs xs ys
    → Splits (rs ++ (r ∷ [])) (xs ++ (r ∷ [])) ys
Splits-first r rs xs ys none_left = to_first r none_left
Splits-first r rs xs ys (to_first q s) = to_first q (Splits-first r _ _ _ s)
Splits-first r rs xs ys (to_second q s) = to_second q (Splits-first r _ _ _ s)

Splits-second :
    (r : SkillRecord) (rs xs ys : List SkillRecord)
    → Splits rs xs ys
    → Splits (rs ++ (r ∷ [])) xs (ys ++ (r ∷ []))
Splits-second r rs xs ys none_left = to_second r none_left
Splits-second r rs xs ys (to_first q s) = to_first q (Splits-second r _ _ _ s)
Splits-second r rs xs ys (to_second q s) = to_second q (Splits-second r _ _ _ s)

ids-append :
    (xs ys : List SkillRecord)
    → map (λ r. r.skill_id) (xs ++ ys) ≡ map (λ r. r.skill_id) xs ++ map (λ r. r.skill_id) ys
ids-append [] ys = refl
ids-append (x ∷ xs) ys = ap (◌∷◌ x.skill_id) (ids-append xs ys)

map-append : (xs ys : List SkillRecord) → map entry (xs ++ ys) ≡ map entry xs ++ map entry ys
map-append [] ys = refl
map-append (x ∷ xs) ys = ap (◌∷◌ (entry x)) (map-append xs ys)

-- One more record is hidden, too long, or added.
consider_by :
    (max_chars : ℕ) (seen : List SkillRecord) (r : SkillRecord) (b : Building) (hidden long : Bool)
    → is_hidden r ≡ hidden
    → ltb max_chars (count (join_lines (b.entries ++ (entry r ∷ [])))) ≡ long
    → IsBuilt max_chars seen b
    → IsBuilt max_chars (seen ++ (r ∷ [])) (
        if hidden
        then b
        else if long
        then record b { omitted = b.omitted ++ (r.skill_id ∷ []) }
        else record b { entries = b.entries ++ (entry r ∷ []); included = b.included ++ (r ∷ []) })
consider_by max_chars seen r b true long h l v =
    let same : select is_shown seen ≡ select is_shown (seen ++ (r ∷ [])) =
      ground (arith, h, select-append is_shown seen (r ∷ []), append-nil (select is_shown seen)) in
    record {
      left = v.left;
      listed = v.listed;
      short = v.short;
      split = coe 0 1 (i. Splits (same i) b.included v.left) v.split;
      named = v.named;
    }
consider_by max_chars seen r b false true h l v =
    let same : select is_shown seen ++ (r ∷ []) ≡ select is_shown (seen ++ (r ∷ [])) =
      ground (arith, h, select-append is_shown seen (r ∷ [])) in
    record {
      left = v.left ++ (r ∷ []);
      listed = v.listed;
      short = v.short;
      split =
          coe 0 1 (i. Splits (same i) b.included (v.left ++ (r ∷ [])))
            (Splits-second r (select is_shown seen) b.included v.left v.split);
      named = ap (λ ids. ids ++ (r.skill_id ∷ [])) v.named ∙ sym (ids-append v.left (r ∷ []));
    }
consider_by max_chars seen r b false false h l v =
    let same : select is_shown seen ++ (r ∷ []) ≡ select is_shown (seen ++ (r ∷ [])) =
      ground (arith, h, select-append is_shown seen (r ∷ [])) in
    record {
      left = v.left;
      listed = ap (λ es. es ++ (entry r ∷ [])) v.listed ∙ sym (map-append b.included (r ∷ []));
      short = ground (arith, l);
      split =
          coe 0 1 (i. Splits (same i) (b.included ++ (r ∷ [])) v.left)
            (Splits-first r (select is_shown seen) b.included v.left v.split);
      named = v.named;
    }

gather-IsBuilt :
    (max_chars : ℕ) (seen rs : List SkillRecord) (b : Building)
    → IsBuilt max_chars seen b
    → IsBuilt max_chars (seen ++ rs) (gather max_chars rs b)
unfolding gather consider
gather-IsBuilt max_chars seen [] b v = coe 0 1 (i. IsBuilt max_chars (sym (append-nil seen) i) b) v
gather-IsBuilt max_chars seen (r ∷ rs) b v =
    coe 0 1
      (i.
        IsBuilt max_chars (append_assoc seen (r ∷ []) rs i)
          (gather max_chars rs (consider max_chars r b)))
      (gather-IsBuilt max_chars (seen ++ (r ∷ [])) rs (consider max_chars r b) (
        consider_by max_chars seen r b (is_hidden r)
          (ltb max_chars (count (join_lines (b.entries ++ (entry r ∷ []))))) refl refl v))

-- A catalog of some records: of those that may be shown, in their order, each is one of its skills or
-- one whose identifier is listed as omitted; it renders the entries of its skills, in at most
-- `max_chars` characters.
pub record IsCatalog (records : List SkillRecord) (max_chars : ℕ) (c : SkillCatalogSnapshot)
    : Type 0 where
  pub rendered : c.rendered ≡ join_lines (map entry c.skills)
  pub counted : c.char_count ≡ count c.rendered
  pub short : c.char_count ≤ max_chars
  pub left : List SkillRecord
  pub split : Splits (select is_shown records) c.skills left
  pub omitted : c.omitted_skill_ids ≡ map (λ r. r.skill_id) left

-- A catalog has at most `max_chars` characters: those of the entries of its skills. Every record that
-- is enabled, trusted and open to the model is one of its skills or has its identifier among the omitted
-- ones, both in the order of the records, and no other record is.
pub build_catalog-IsCatalog :
    (digest : String → String) (records : List SkillRecord) (diagnostics : List SkillDiagnostic)
    (max_chars : ℕ)
    → IsCatalog records max_chars (build_catalog digest records diagnostics max_chars)
unfolding build_catalog
build_catalog-IsCatalog digest records diagnostics max_chars =
    let v : IsBuilt max_chars records (gather max_chars records empty_catalog) =
      gather-IsBuilt max_chars [] records empty_catalog (record {
        left = [];
        listed = refl;
        short = omega arith;
        split = none_left;
        named = refl;
      }) in
    record {
      rendered = ap join_lines v.listed;
      counted = refl;
      short = v.short;
      left = v.left;
      split = v.split;
      omitted = v.named;
    }
