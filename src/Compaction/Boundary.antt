-- ===== src/Compaction/Boundary.antt =====
-- Where CompactionService.compact (agent-harness/src/agent_harness/compaction/service.py) cuts a history.
use general_agent_design.Common.{
  ℕ, zero, suc, ◌+◌, ◌-◌, ◌<◌, ◌≡◌, refl, sym, ap, ◌∙◌, Bool, true, false, List, [], ◌∷◌, ◌++◌,
  select, length, take, drop, arith, select-append, Bool-cases, inl, inr,
}
use general_agent_design.Compaction.{
  HistoryMessage, opens_turn, is_protected, user_indexes, nth, boundary, split_at,
}

-- The number of turns that a history opens.
abbrev pub turns : List HistoryMessage → ℕ
turns ms = length (select opens_turn ms)

pub length-user_indexes : (i : ℕ) (ms : List HistoryMessage) → length (user_indexes i ms) ≡ turns ms
unfolding user_indexes
length-user_indexes i [] = refl
length-user_indexes i (m ∷ ms) = ground (arith, length-user_indexes (suc i) ms)

-- The history begins with a message that opens a turn.
abbrev pub opens : List HistoryMessage → Bool
opens [] = false
opens (m ∷ ms) = opens_turn m

-- From the index with number j on, where a turn is opened, all turns but j are opened.
turns-drop :
    (i j : ℕ) (ms : List HistoryMessage)
    → j < turns ms
    → (k : ℕ) × (nth j (user_indexes i ms) ≡ i + k)
      × (turns (drop k ms) + j ≡ turns ms)
      × (opens (drop k ms) ≡ true)
unfolding user_indexes
turns-drop i j [] l = absurd (omega arith)
turns-drop i zero (m ∷ ms) l = elim (Bool-cases (opens_turn m)) [
  | inl y ↦ (0, ground (arith, y), omega arith, y)
  | inr n ↦
      let (k, at_k, rest, o) = turns-drop (suc i) zero ms (ground (arith, n)) in
      (suc k, ground (arith, n, at_k), ground (arith, n, rest), o)
]
turns-drop i (suc j) (m ∷ ms) l = elim (Bool-cases (opens_turn m)) [
  | inl y ↦
      let (k, at_k, rest, o) = turns-drop (suc i) j ms (ground (arith, y)) in
      (suc k, ground (arith, y, at_k), ground (arith, y, rest), o)
  | inr n ↦
      let (k, at_k, rest, o) = turns-drop (suc i) (suc j) ms (ground (arith, n)) in
      (suc k, ground (arith, n, at_k), ground (arith, n, rest), o)
]

zero_add : (k : ℕ) → 0 + k ≡ k
zero_add k = omega arith

-- The boundary for r + 1 turns: where the first of the last r + 1 turns is opened.
pub boundary-drop :
    (r : ℕ) (ms : List HistoryMessage)
    → suc r < turns ms
    → (turns (drop (boundary (suc r) (user_indexes 0 ms)) ms) ≡ suc r)
      × (opens (drop (boundary (suc r) (user_indexes 0 ms)) ms) ≡ true)
unfolding boundary
boundary-drop r ms l =
    let (k, at_k, rest, o) = turns-drop 0 (turns ms - suc r) ms (omega arith) in
    let cut : boundary (suc r) (user_indexes 0 ms) ≡ k =
      ap (λ (n : ℕ). nth (n - suc r) (user_indexes 0 ms)) (length-user_indexes 0 ms)
      ∙ at_k
      ∙ zero_add k in
    (
      ap (λ (n : ℕ). turns (drop n ms)) cut ∙ omega (arith, rest),
      ap (λ (n : ℕ). opens (drop n ms)) cut ∙ o,
    )

pub take-drop : (n : ℕ) (ms : List HistoryMessage) → take n ms ++ drop n ms ≡ ms
take-drop zero ms = refl
take-drop (suc n) [] = refl
take-drop (suc n) (m ∷ ms) = ap (◌∷◌ m) (take-drop n ms)

pub select_twice :
    (p : HistoryMessage → Bool) (ms : List HistoryMessage) → select p (select p ms) ≡ select p ms
select_twice p [] = refl
select_twice p (m ∷ ms) = ground (arith, select_twice p ms)

-- The protected messages of a history are those of its parts.
pub select-split_at :
    (n : ℕ) (ms : List HistoryMessage)
    → select is_protected ((split_at n ms).protected ++ (split_at n ms).recent)
      ≡ select is_protected ms
unfolding split_at
select-split_at n ms =
    select-append is_protected (select is_protected (take n ms)) (drop n ms)
    ∙ ap (λ xs. xs ++ select is_protected (drop n ms)) (select_twice is_protected (take n ms))
    ∙ sym (select-append is_protected (take n ms) (drop n ms))
    ∙ ap (select is_protected) (take-drop n ms)
