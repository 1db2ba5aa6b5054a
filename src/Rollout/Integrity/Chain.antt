-- ===== src/Rollout/Integrity/Chain.antt =====
-- The checks of load_verified (rollout/integrity.py) over a list of items.
use general_agent_design.Common.{
  ◌≡◌, refl, ap, ◌∙◌, String, Bool, true, false, List, [], ◌∷◌, ◌++◌, map, append-nil, append_assoc,
  arith,
}
use general_agent_design.Domain.Errors.{Result, ok, ◌>>=◌, >>=-ok}
use general_agent_design.Domain.Payload.{chained}
use general_agent_design.Rollout.Items.{RolloutItem, decode, encode, decode-encode}
use general_agent_design.Rollout.Integrity.{
  malformed, parsed, Line, line, unended_line, Progress, check_item, load,
}

module _ (digest : RolloutItem → String) where
  -- The checks of load_verified on items one after the other.
  unfoldable pub check_all : List RolloutItem → Progress → Result Progress
  check_all [] p = ok p
  check_all (i ∷ is) p = check_item digest i p >>= check_all is

  pub check_all-append :
      (is js : List RolloutItem) (p q : Progress)
      → check_all is p ≡ ok q
      → check_all (is ++ js) p ≡ check_all js q
  unfolding check_all
  check_all-append [] js p q h = ground arith
  check_all-append (i ∷ is) js p q h =
      let (u, a, b) = >>=-ok (check_item digest i p) (check_all is) h in
      ap (λ r. r >>= check_all (is ++ js)) a ∙ check_all-append is js u q b

  -- The line of an item that passes the checks.
  read_line :
      (repair_tail : Bool) (behind : List Line) (i : RolloutItem) (ls : List Line) (ended : Bool)
      (p u : Progress)
      → check_item digest i p ≡ ok u
      → load digest repair_tail behind p (record { row = parsed (encode i); ended = ended } ∷ ls)
        ≡ load digest repair_tail
            (behind ++ (record { row = parsed (encode i); ended = ended } ∷ []))
            u
            ls
  unfolding load
  read_line repair_tail behind i ls ended p u a =
      chained (decode (encode i)) i _ _ (decode-encode i)
        (chained (check_item digest i p) u _ _ a refl)

  -- A file of whole lines whose items pass the checks, with a last line that is no JSON text or without.
  pub load_whole :
      (repair_tail : Bool) (behind : List Line) (is : List RolloutItem) (p q : Progress)
      → check_all is p ≡ ok q
      → load digest repair_tail behind p (map line is)
        ≡ ok (record { end = q; lines = behind ++ map line is; quarantined = [] })
  unfolding load check_all
  load_whole repair_tail behind [] p q h = ground (arith, append-nil behind)
  load_whole repair_tail behind (i ∷ is) p q h =
      let (u, a, b) = >>=-ok (check_item digest i p) (check_all is) h in
      read_line repair_tail behind i (map line is) true p u a
      ∙ load_whole repair_tail (behind ++ (line i ∷ [])) is u q b
      ∙ ap (λ ls. ok (record { end = q; lines = ls; quarantined = [] }))
          (append_assoc behind (line i ∷ []) (map line is))

  pub load_torn :
      (behind : List Line) (is : List RolloutItem) (l : Line) (p q : Progress)
      → l.row ≡ malformed
      → check_all is p ≡ ok q
      → load digest true behind p (map line is ++ (l ∷ []))
        ≡ ok (record { end = q; lines = behind ++ map line is; quarantined = l ∷ [] })
  unfolding load check_all
  load_torn behind [] l p q e h = ground (arith, append-nil behind)
  load_torn behind (i ∷ is) l p q e h =
      let (u, a, b) = >>=-ok (check_item digest i p) (check_all is) h in
      read_line true behind i (map line is ++ (l ∷ [])) true p u a
      ∙ load_torn (behind ++ (line i ∷ [])) is l u q e b
      ∙ ap (λ ls. ok (record { end = q; lines = ls; quarantined = l ∷ [] }))
          (append_assoc behind (line i ∷ []) (map line is))

  -- The last line may lack its newline.
  pub load_unended :
      (behind : List Line) (is : List RolloutItem) (i : RolloutItem) (p q : Progress)
      → check_all (is ++ (i ∷ [])) p ≡ ok q
      → load digest true behind p (map line is ++ (unended_line i ∷ []))
        ≡ ok (record {
          end = q;
          lines = behind ++ (map line is ++ (unended_line i ∷ []));
          quarantined = [];
        })
  unfolding load check_all
  load_unended behind [] i p q h =
      let (u, a, b) = >>=-ok (check_item digest i p) (λ x. ok x) h in
      read_line true behind i [] false p u a
      ∙ ap
          (λ r. r >>= λ e.
            ok (record { end = e; lines = behind ++ (unended_line i ∷ []); quarantined = [] }))
          b
  load_unended behind (j ∷ is) i p q h =
      let (u, a, b) = >>=-ok (check_item digest j p) (check_all (is ++ (i ∷ []))) h in
      read_line true behind j (map line is ++ (unended_line i ∷ [])) true p u a
      ∙ load_unended (behind ++ (line j ∷ [])) is i u q b
      ∙ ap (λ ls. ok (record { end = q; lines = ls; quarantined = [] }))
          (append_assoc behind (line j ∷ []) (map line is ++ (unended_line i ∷ [])))

  -- The checks keep every item in its place.
  pub check_all-items :
      (is : List RolloutItem) (p q : Progress) → check_all is p ≡ ok q → q.items ≡ p.items ++ is
  unfolding check_all check_item
  check_all-items [] p q h = ground (arith, append-nil p.items)
  check_all-items (i ∷ is) p q h =
      let (u, a, b) = >>=-ok (check_item digest i p) (check_all is) h in
      let grown : u.items ≡ p.items ++ (i ∷ []) = ground arith in
      check_all-items is u q b ∙ ap (λ xs. xs ++ is) grown ∙ append_assoc p.items (i ∷ []) is
