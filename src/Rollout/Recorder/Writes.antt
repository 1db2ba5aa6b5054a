-- ===== src/Rollout/Recorder/Writes.antt =====
-- What _append_items (threads/recorder.py) writes, against the checks of rollout/integrity.py.
use general_agent_design.Common.{
  ℕ, zero, suc, ◌+◌, ◌≡◌, refl, sym, ap, ◌∙◌, String, true, List, [], ◌∷◌, ◌++◌, map, take, drop,
  ◌⊎◌, inl, inr, append-nil, append_assoc, arith, eq_iff, eq_refl,
}
use general_agent_design.Domain.Errors.{ok, ◌>>=◌, >>=-ok}
use general_agent_design.Rollout.Items.{RolloutItem}
use general_agent_design.Rollout.Integrity.{
  malformed, unended_line, Line, line, Progress, hash_item, check_item,
}
use general_agent_design.Rollout.Integrity.Chain.{check_all}
use general_agent_design.Rollout.Recorder.{
  Recorder, Tail, nothing, a_part, all_but_newline, tail_lines, add_line, durable, number,
  number_all, add_lines,
}

-- The recorder's counters stand where the checks of the file have come to.
pub record IsAt (r : Recorder) (p : Progress) : Type 0 where
  pub same_hash : p.previous_hash ≡ r.previous_hash
  pub same_sequence : p.expected_sequence ≡ r.sequence + 1

module _ (digest : RolloutItem → String) where
  number-IsAt :
      (r : Recorder) (i : RolloutItem) (p : Progress)
      → IsAt r p
      → (q : Progress) × (check_item digest (number digest r i).0 p ≡ ok q)
        × IsAt (number digest r i).1 q
  unfolding number durable hash_item check_item
  number-IsAt r i p a = (
    record {
      items = p.items ++ ((number digest r i).0 ∷ []);
      previous_hash = (number digest r i).0.item_hash;
      expected_sequence = p.expected_sequence + 1;
      v2_started = true;
    },
    ground (
      arith,
      a,
      eq_iff r.previous_hash p.previous_hash,
      eq_refl (
          hash_item digest (record i {
            schema_version = 2;
            sequence_number = r.sequence + 1;
            previous_hash = r.previous_hash;
            item_hash = "";
          })),
    ),
    record { same_hash = refl; same_sequence = ground arith },
  )

  -- Numbered items pass the checks.
  pub number_all-IsAt :
      (r : Recorder) (is : List RolloutItem) (p : Progress)
      → IsAt r p
      → (q : Progress) × (check_all digest (number_all digest r is).0 p ≡ ok q)
        × IsAt (number_all digest r is).1 q
  unfolding number_all check_all
  number_all-IsAt r [] p a = (p, refl, a)
  number_all-IsAt r (i ∷ is) p a =
      let (u, c, b) = number-IsAt r i p a in
      let (q, d, e) = number_all-IsAt (number digest r i).1 is u b in
      (q, ap (λ x. x >>= check_all digest (number_all digest (number digest r i).1 is).0) c ∙ d, e)

pub add_line-line :
    (is : List RolloutItem) (l : Line) → add_line (map line is) l ≡ map line is ++ (l ∷ [])
unfolding add_line
add_line-line [] l = refl
add_line-line (i ∷ []) l = refl
add_line-line (i ∷ j ∷ is) l = ap (◌∷◌ (line i)) (add_line-line (j ∷ is) l)

pub map-append : (is js : List RolloutItem) → map line (is ++ js) ≡ map line is ++ map line js
map-append [] js = refl
map-append (i ∷ is) js = ap (◌∷◌ (line i)) (map-append is js)

pub add_lines-line :
    (is js : List RolloutItem) → add_lines (map line is) (map line js) ≡ map line (is ++ js)
add_lines-line is [] = ap (map line) (sym (append-nil is))
add_lines-line is (j ∷ js) =
    ap (λ ls. add_lines ls (map line js)) (add_line-line is (line j) ∙ sym (map-append is (j ∷ [])))
    ∙ add_lines-line (is ++ (j ∷ [])) js
    ∙ ap (map line) (append_assoc is (j ∷ []) js)

-- A part of what passes the checks passes them.
pub check_all-take :
    (digest : RolloutItem → String) (n : ℕ) (is : List RolloutItem) (p q : Progress)
    → check_all digest is p ≡ ok q
    → (q' : Progress) × (check_all digest (take n is) p ≡ ok q')
unfolding check_all
check_all-take digest zero is p q h = (p, refl)
check_all-take digest (suc n) [] p q h = (p, refl)
check_all-take digest (suc n) (i ∷ is) p q h =
    let (u, a, b) = >>=-ok (check_item digest i p) (check_all digest is) h in
    let (q', c) = check_all-take digest n is u q b in
    (q', ap (λ r. r >>= check_all digest (take n is)) a ∙ c)

-- Numbering leaves the rest of the recorder as it is.
pub record SameButNumbers (r s : Recorder) : Type 0 where
  pub same_lines : s.lines ≡ r.lines
  pub same_failure : s.failure ≡ r.failure
  pub same_writer : s.writer ≡ r.writer

pub number_all-SameButNumbers :
    (digest : RolloutItem → String) (r : Recorder) (is : List RolloutItem)
    → SameButNumbers r (number_all digest r is).1
unfolding number_all number
number_all-SameButNumbers digest r [] = ground arith
number_all-SameButNumbers digest r (i ∷ is) =
    let b = number_all-SameButNumbers digest (number digest r i).1 is in ground (arith, b)

-- Behind m whole lines: nothing, or what is no JSON text, or the next of the items.
abbrev pub TailCase : Tail → ℕ → List RolloutItem → Type 0
TailCase tail m ds =
    (tail_lines tail (drop m ds) ≡ [])
    ⊎ (((l : Line) × (l.row ≡ malformed) × (tail_lines tail (drop m ds) ≡ l ∷ []))
        ⊎ ((d : RolloutItem) × (tail_lines tail (drop m ds) ≡ unended_line d ∷ [])
            × (take (suc m) ds ≡ take m ds ++ (d ∷ []))))

later :
    (tail : Tail) (m : ℕ) (d : RolloutItem) (ds : List RolloutItem)
    → TailCase tail m ds
    → TailCase tail (suc m) (d ∷ ds)
later tail m d ds (inl p) = inl p
later tail m d ds (inr (inl q)) = inr (inl q)
later tail m d ds (inr (inr (e, p, q))) = inr (inr (e, p, ap (◌∷◌ d) q))

pub tail_lines-cases : (tail : Tail) (m : ℕ) (ds : List RolloutItem) → TailCase tail m ds
tail_lines-cases nothing m ds = inl refl
tail_lines-cases a_part zero [] = inl refl
tail_lines-cases a_part zero (d ∷ ds) = inr (inl (_, refl, refl))
tail_lines-cases a_part (suc m) [] = inl refl
tail_lines-cases a_part (suc m) (d ∷ ds) = later a_part m d ds (tail_lines-cases a_part m ds)
tail_lines-cases all_but_newline zero [] = inl refl
tail_lines-cases all_but_newline zero (d ∷ ds) = inr (inr (d, refl, refl))
tail_lines-cases all_but_newline (suc m) [] = inl refl
tail_lines-cases all_but_newline (suc m) (d ∷ ds) =
    later all_but_newline m d ds (tail_lines-cases all_but_newline m ds)
