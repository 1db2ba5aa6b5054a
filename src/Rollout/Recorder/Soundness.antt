-- ===== src/Rollout/Recorder/Soundness.antt =====
-- The file of a RolloutRecorder (threads/recorder.py) after one command.
use general_agent_design.Common.{
  ℕ, ◌≡◌, sym, ap, ◌∙◌, String, true, false, ◌⊎◌, inl, inr, none, List, [], ◌∷◌, ◌++◌, map, is_some,
  take, drop, append-nil, append_assoc, suc, arith,
}
use general_agent_design.Domain.Errors.{Exception, ok}
use general_agent_design.Rollout.Items.{RolloutItem}
use general_agent_design.Rollout.Integrity.{
  malformed, Line, line, unended_line, Progress, first_row, Loaded, load, load_verified,
}
use general_agent_design.Rollout.Integrity.Chain.{
  check_all, check_all-append, check_all-items, load_whole, load_torn, load_unended,
}
use general_agent_design.Rollout.Recorder.{
  Command, write, flush_command, shutdown_command, Recorder, Fate, durable_write, torn, Tail,
  tail_lines, set_failure, number_all, add_lines, append_items, after_append, serve,
}
use general_agent_design.Rollout.Recorder.Writes.{
  tail_lines-cases, IsAt, number_all-IsAt, add_line-line, add_lines-line, check_all-take,
  number_all-SameButNumbers,
}
use general_agent_design.Rollout.Recorder.Steps.{is_at_work}

set_failure-lines : (x : Exception) (r : Recorder) → (set_failure x r).lines ≡ r.lines
unfolding set_failure
set_failure-lines x r = ground arith

module _ (digest : RolloutItem → String) where
  -- The lines are those of the items, and the recorder goes on from them.
  pub record InStep (r : Recorder) (items : List RolloutItem) : Type 0 where
    pub end : Progress
    pub checked : check_all digest items first_row ≡ ok end
    pub no_failure : r.failure ≡ none
    pub file : r.lines ≡ map line items
    pub is_at : IsAt r end

  -- The recorder has failed for good, with a part of a line perhaps behind the items, or with the last of
  -- them lacking its newline.
  pub record IsBroken (r : Recorder) (items : List RolloutItem) : Type 0 where
    pub end : Progress
    pub checked : check_all digest items first_row ≡ ok end
    pub has_failed : is_some r.failure ≡ true
    pub stopped : is_at_work r.writer ≡ false
    pub file :
        (r.lines ≡ map line items)
        ⊎ (((l : Line) × (l.row ≡ malformed) × (r.lines ≡ map line items ++ (l ∷ [])))
            ⊎ ((is : List RolloutItem) × (i : RolloutItem) × (items ≡ is ++ (i ∷ []))
                × (r.lines ≡ map line is ++ (unended_line i ∷ []))))

  abbrev pub IsSound : Recorder → List RolloutItem → Type 0
  IsSound r items = InStep r items ⊎ IsBroken r items

  pub loads :
      (r : Recorder) (items : List RolloutItem)
      → IsSound r items
      → (l : Loaded) × (load_verified digest true r.lines ≡ ok l) × (l.end.items ≡ items)
  unfolding load_verified
  loads r items (inl a) = (
    _,
    ap (load digest true [] first_row) a.file
        ∙ load_whole digest true [] items first_row a.end a.checked,
    check_all-items digest items first_row a.end a.checked,
  )
  loads r items (inr b) = elim b.file [
    | inl f ↦ (
      _,
      ap (load digest true [] first_row) f
          ∙ load_whole digest true [] items first_row b.end b.checked,
      check_all-items digest items first_row b.end b.checked,
    )
    | inr (inl (l, m, f)) ↦ (
      _,
      ap (load digest true [] first_row) f
          ∙ load_torn digest [] items l first_row b.end m b.checked,
      check_all-items digest items first_row b.end b.checked,
    )
    | inr (inr (is, i, e, f)) ↦ (
      _,
      ap (load digest true [] first_row) f
          ∙ load_unended digest [] is i first_row b.end
              (ap (λ js. check_all digest js first_row) (sym e) ∙ b.checked),
      check_all-items digest items first_row b.end b.checked,
    )
  ]

  pub append-InStep :
      (r : Recorder) (items is : List RolloutItem)
      → InStep r items
      → InStep (append_items digest durable_write is r).1 (items ++ (number_all digest r is).0)
  unfolding append_items
  append-InStep r items is a =
      let (q, c, at) = number_all-IsAt digest r is a.end a.is_at in
      let same = number_all-SameButNumbers digest r is in
      record {
        end = q;
        checked =
            check_all-append digest items (number_all digest r is).0 first_row a.end a.checked ∙ c;
        no_failure = same.same_failure ∙ a.no_failure;
        file =
            ap (λ ls. add_lines ls (map line (number_all digest r is).0)) (same.same_lines ∙ a.file)
            ∙ add_lines-line items (number_all digest r is).0;
        is_at = record { same_hash = at.same_hash; same_sequence = at.same_sequence };
      }

  -- What a failed write leaves: m whole lines of the numbered items, then the tail.
  torn-lines :
      (r : Recorder) (items is : List RolloutItem) (n m : ℕ) (tail : Tail) (x : Exception)
      → InStep r items
      → (after_append (append_items digest (torn n m tail x) is r)).lines
        ≡ add_lines
            (map line (items ++ take m (number_all digest r (take n is)).0))
            (tail_lines tail (drop m (number_all digest r (take n is)).0))
  unfolding append_items
  torn-lines r items is n m tail x a =
      let ds = (number_all digest r (take n is)).0 in
      let same = number_all-SameButNumbers digest r (take n is) in
      set_failure-lines x (append_items digest (torn n m tail x) is r).1
      ∙ ap (λ ls. add_lines (add_lines ls (map line (take m ds))) (tail_lines tail (drop m ds)))
          (same.same_lines ∙ a.file)
      ∙ ap (λ ls. add_lines ls (tail_lines tail (drop m ds))) (add_lines-line items (take m ds))

  -- The recorder has failed, with k of the numbered items on the file.
  broken :
      (r : Recorder) (items is : List RolloutItem) (n m k : ℕ) (tail : Tail) (x : Exception)
      → InStep r items
      → (let items' = items ++ take k (number_all digest r (take n is)).0 in
          let s = after_append (append_items digest (torn n m tail x) is r) in
          ((s.lines ≡ map line items')
            ⊎ (((l : Line) × (l.row ≡ malformed) × (s.lines ≡ map line items' ++ (l ∷ [])))
                ⊎ ((js : List RolloutItem) × (j : RolloutItem) × (items' ≡ js ++ (j ∷ []))
                    × (s.lines ≡ map line js ++ (unended_line j ∷ [])))))
          → IsBroken s items')
  unfolding append_items set_failure
  broken r items is n m k tail x a f =
      let ds = (number_all digest r (take n is)).0 in
      let (q, c, at) = number_all-IsAt digest r (take n is) a.end a.is_at in
      let same = number_all-SameButNumbers digest r (take n is) in
      let (q', c') = check_all-take digest k ds a.end q c in
      record {
        end = q';
        checked = check_all-append digest items (take k ds) first_row a.end a.checked ∙ c';
        has_failed = ground (arith, same, a.no_failure);
        stopped = ground (arith, same, a.no_failure);
        file = f;
      }

  pub torn-IsBroken :
      (r : Recorder) (items is : List RolloutItem) (n m : ℕ) (tail : Tail) (x : Exception)
      → InStep r items
      → (more : List RolloutItem) × IsBroken
          (after_append (append_items digest (torn n m tail x) is r))
          (items ++ more)
  torn-IsBroken r items is n m tail x a =
      let ds = (number_all digest r (take n is)).0 in
      let written = torn-lines r items is n m tail x a in
      elim (tail_lines-cases tail m ds) [
        | inl p ↦ (
          take m ds,
          broken r items is n m m tail x a
              (inl (written ∙ ap (add_lines (map line (items ++ take m ds))) p)),
        )
        | inr (inl (l, e, p)) ↦ (
          take m ds,
          broken r items is n m m tail x a (
              inr (
                inl (
                  l,
                  e,
                  written
                      ∙ ap (add_lines (map line (items ++ take m ds))) p
                      ∙ add_line-line (items ++ take m ds) l,
                ))),
        )
        | inr (inr (d, p, t)) ↦ (
          take (suc m) ds,
          broken r items is n m (suc m) tail x a (
              inr (
                inr (
                  items ++ take m ds,
                  d,
                  ap (λ js. items ++ js) t ∙ sym (append_assoc items (take m ds) (d ∷ [])),
                  written
                      ∙ ap (add_lines (map line (items ++ take m ds))) p
                      ∙ add_line-line (items ++ take m ds) (unended_line d),
                ))),
        )
      ]

  pub same-IsSound :
      (r : Recorder) (is js : List RolloutItem) → is ≡ js → IsSound r is → IsSound r js
  same-IsSound r is js p a = coe 0 1 (i. IsSound r (p i)) a

  -- A serving recorder either appends or leaves the file alone.
  pub serve-IsSound :
      (r : Recorder) (fate : Fate) (c : Command) (items : List RolloutItem)
      → InStep r items
      → (more : List RolloutItem) × IsSound (serve digest fate c r) (items ++ more)
  unfolding append_items
  serve-IsSound r durable_write (write is) items a = (_, inl (append-InStep r items is a))
  serve-IsSound r (torn n m tail x) (write is) items a =
      let (more, b) = torn-IsBroken r items is n m tail x a in (more, inr b)
  serve-IsSound r fate (flush_command k) items a =
      ([], same-IsSound _ items _ (sym (append-nil items)) (inl (ground (arith, a))))
  serve-IsSound r fate (shutdown_command k) items a =
      ([], same-IsSound _ items _ (sym (append-nil items)) (inl (ground (arith, a))))
