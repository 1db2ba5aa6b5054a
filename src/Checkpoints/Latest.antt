-- ===== src/Checkpoints/Latest.antt =====
-- The newest row of a turn in the table of agent-harness/src/agent_harness/checkpoints/store.py.
use general_agent_design.Common.{
  ℕ, suc, ◌≤◌, String, ◌≡◌, ◌≢◌, refl, ◌⊎◌, inl, inr, Bool, true, false, not, ◌&&◌, ◌||◌, Option,
  some, none, List, [], ◌∷◌, ◌++◌, any, all, leb, ltb, eqb, ◌==◌, arith, eq_iff, eq_refl,
  Bool-cases,
}
use general_agent_design.Checkpoints.Store.{
  CheckpointRow, CheckpointStore, conflicts, of_turn, higher, newest,
}
use general_agent_design.Domain.Errors.{Result, ok, err}
use general_agent_design.Checkpoints.Envelope.{CheckpointEnvelope, checkpoint_from_dict}
use general_agent_design.Checkpoints.Manager.{CheckpointManager}

-- The rows of a turn have sequence numbers of at most n.
abbrev pub bounded : String → String → ℕ → List CheckpointRow → Bool
bounded thread_id turn_id n rows =
    all (λ r. not (of_turn thread_id turn_id r) || leb r.checkpoint_sequence n) rows

-- The sequence number of the envelope in a payload, where there is one, is that of its row.
abbrev pub is_numbered : ℕ → Result CheckpointEnvelope → Bool
is_numbered n (ok c) = eqb c.checkpoint_sequence n
is_numbered n (err x) = true

abbrev pub consistent : List CheckpointRow → Bool
consistent rows = all (λ r. is_numbered r.checkpoint_sequence (checkpoint_from_dict r.payload)) rows

-- The manager's counter is not behind the rows of the turn.
pub record IsCurrent (turn_id : String) (m : CheckpointManager) (s : CheckpointStore) : Type 0 where
  pub ahead : bounded m.thread_id turn_id m.sequence s.checkpoints ≡ true
  pub agreeing : consistent s.checkpoints ≡ true

-- No row has this checkpoint identifier.
abbrev pub unused : String → List CheckpointRow → Bool
unused i rows = all (λ r. not (i == r.checkpoint_id)) rows

pub conflicts-any :
    (r : CheckpointRow) (n : ℕ) (rows : List CheckpointRow)
    → r.checkpoint_sequence ≡ suc n
    → unused r.checkpoint_id rows ≡ true
    → bounded r.thread_id r.turn_id n rows ≡ true
    → any (conflicts r) rows ≡ false
conflicts-any r n [] e u b = refl
conflicts-any r n (q ∷ rows) e u b = ground (
  arith,
  eq_iff r.thread_id q.thread_id,
  eq_iff q.thread_id r.thread_id,
  eq_iff r.turn_id q.turn_id,
  eq_iff q.turn_id r.turn_id,
  conflicts-any r n rows e,
)

pub newest-append :
    (r : CheckpointRow) (n : ℕ) (rows : List CheckpointRow)
    → r.checkpoint_sequence ≡ suc n
    → bounded r.thread_id r.turn_id n rows ≡ true
    → newest r.thread_id r.turn_id (rows ++ r ∷ []) ≡ some r
unfolding newest
newest-append r n [] e b = ground (arith, eq_refl r.thread_id, eq_refl r.turn_id)
newest-append r n (q ∷ rows) e b = ground (arith, newest-append r n rows e)

pub bounded-append :
    (r : CheckpointRow) (n : ℕ) (rows : List CheckpointRow) (th tu : String)
    → r.checkpoint_sequence ≡ suc n
    → bounded th tu n rows ≡ true
    → bounded th tu (suc n) (rows ++ r ∷ []) ≡ true
bounded-append r n [] th tu e b = ground arith
bounded-append r n (q ∷ rows) th tu e b = ground (arith, bounded-append r n rows th tu e)

pub consistent-append :
    (r : CheckpointRow) (rows : List CheckpointRow)
    → is_numbered r.checkpoint_sequence (checkpoint_from_dict r.payload) ≡ true
    → consistent rows ≡ true
    → consistent (rows ++ r ∷ []) ≡ true
consistent-append r [] e b = ground arith
consistent-append r (q ∷ rows) e b = ground (arith, consistent-append r rows e)

pub bounded-le :
    (th tu : String) (n m : ℕ) (rows : List CheckpointRow)
    → n ≤ m
    → bounded th tu n rows ≡ true
    → bounded th tu m rows ≡ true
bounded-le th tu n m [] l b = refl
bounded-le th tu n m (r ∷ rows) l b = ground (arith, bounded-le th tu n m rows l)

higher-some : (r : CheckpointRow) (o : Option CheckpointRow) → higher r o ≢ none
higher-some r none h = cc
higher-some r (some q) h = ground (arith, h)

pub newest-none :
    (th tu : String) (n : ℕ) (rows : List CheckpointRow)
    → newest th tu rows ≡ none
    → bounded th tu n rows ≡ true
unfolding newest
newest-none th tu n [] h = refl
newest-none th tu n (r ∷ rows) h =
    ground (arith, newest-none th tu n rows, higher-some r (newest th tu rows))

pub higher-bounded :
    (th tu : String) (r q : CheckpointRow) (rows : List CheckpointRow) (o : Option CheckpointRow)
    → higher r o ≡ some q
    → (o ≡ none → (n : ℕ) → bounded th tu n rows ≡ true)
    → ((p : CheckpointRow) → o ≡ some p → bounded th tu p.checkpoint_sequence rows ≡ true)
    → (leb r.checkpoint_sequence q.checkpoint_sequence && bounded th tu q.checkpoint_sequence rows)
      ≡ true
higher-bounded th tu r q rows none h f g = ground (arith, f refl q.checkpoint_sequence)
higher-bounded th tu r q rows (some p) h f g =
    ground (arith, g p refl, bounded-le th tu p.checkpoint_sequence r.checkpoint_sequence rows)

-- The newest row bounds the rows of its turn.
pub newest-bounded :
    (th tu : String) (rows : List CheckpointRow) (q : CheckpointRow)
    → newest th tu rows ≡ some q
    → bounded th tu q.checkpoint_sequence rows ≡ true
unfolding newest
newest-bounded th tu [] q h = absurd cc
newest-bounded th tu (r ∷ rows) q h = elim (Bool-cases (of_turn th tu r)) [
  | inl y ↦
      let both =
        higher-bounded th tu r q rows (newest th tu rows) (ground (arith, y))
          (λ e n. newest-none th tu n rows e) (λ p e. newest-bounded th tu rows p e) in
      ground (arith, both)
  | inr n ↦ ground (arith, n, newest-bounded th tu rows q)
]

pub higher-consistent :
    (r q : CheckpointRow) (o : Option CheckpointRow) → higher r o ≡ some q → (r ≡ q) ⊎ (o ≡ some q)
higher-consistent r q none h = inl cc
higher-consistent r q (some p) h =
    elim (Bool-cases (ltb p.checkpoint_sequence r.checkpoint_sequence)) [
      | inl y ↦ inl (ground (arith, y))
      | inr n ↦ inr (ground (arith, n))
    ]

pub newest-consistent :
    (th tu : String) (rows : List CheckpointRow) (q : CheckpointRow)
    → consistent rows ≡ true
    → newest th tu rows ≡ some q
    → is_numbered q.checkpoint_sequence (checkpoint_from_dict q.payload) ≡ true
unfolding newest
newest-consistent th tu [] q c h = absurd cc
newest-consistent th tu (r ∷ rows) q c h = elim (Bool-cases (of_turn th tu r)) [
  | inl y ↦ elim (higher-consistent r q (newest th tu rows) (ground (arith, y))) [
    | inl e ↦
        coe 0 1
          (i. is_numbered (e i).checkpoint_sequence (checkpoint_from_dict (e i).payload) ≡ true)
          (ground arith)
    | inr e ↦ newest-consistent th tu rows q (ground (arith, c)) e
  ]
  | inr n ↦ newest-consistent th tu rows q (ground (arith, c)) (ground (arith, n))
]
