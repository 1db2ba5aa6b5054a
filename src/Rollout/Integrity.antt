-- ===== src/Rollout/Integrity.antt =====
-- agent-harness/src/agent_harness/rollout/integrity.py: hash_item and load_verified. A file is its lines,
-- each with what json.loads reads on it and whether its newline is there. `digest` is
-- the SHA-256 of the canonical JSON text of an item. The row numbers in the error messages are left out.
pub mod Chain
use general_agent_design.Common.{
  ℕ, ◌+◌, String, Bool, true, false, not, ◌&&◌, ◌||◌, List, [], ◌∷◌, ◌++◌, eqb, ◌==◌, if◌then◌else◌,
}
use general_agent_design.Domain.Errors.{Result, ok, err, value_error, ◌>>=◌}
use general_agent_design.Domain.Json.{Value}
use general_agent_design.Rollout.Items.{RolloutItem, encode, decode}

-- What a line holds: a JSON value, or what is no JSON text.
pub data Row : Type 0 where
  malformed : Row
  parsed : Value → Row

pub record Line : Type 0 where
  pub row : Row
  pub ended : Bool

-- The line of an item, whole and without its newline.
abbrev pub line : RolloutItem → Line
line i = record { row = parsed (encode i); ended = true }

abbrev pub unended_line : RolloutItem → Line
unended_line i = record { row = parsed (encode i); ended = false }

-- The local variables of load_verified.
pub record Progress : Type 0 where
  pub items : List RolloutItem
  pub previous_hash : String
  pub expected_sequence : ℕ
  pub v2_started : Bool

-- What load_verified leaves: its result, the lines that stay in the file, and the lines that it has
-- moved to a file of their own.
pub record Loaded : Type 0 where
  pub end : Progress
  pub lines : List Line
  pub quarantined : List Line

abbrev pub first_row : Progress
first_row = record { items = []; previous_hash = ""; expected_sequence = 1; v2_started = false }

abbrev pub is_last : List Line → Bool
is_last [] = true
is_last _ = false

module _ (digest : RolloutItem → String) where
  unfoldable pub hash_item : RolloutItem → String
  hash_item i = digest (record i { item_hash = "" })

  -- The body of the loop for a row that could be read.
  unfoldable pub check_item : RolloutItem → Progress → Result Progress
  unfolding hash_item
  check_item i p =
      if eqb i.schema_version 1
      then (if p.v2_started
          then err (value_error "Legacy rollout row appears after v2 chain")
          else ok (record p { items = p.items ++ (i ∷ []) }))
      else if not (eqb i.sequence_number p.expected_sequence)
      then err (value_error "Rollout sequence mismatch")
      else if not (i.previous_hash == p.previous_hash) || not (hash_item i == i.item_hash)
      then err (value_error "Rollout hash chain mismatch")
      else ok (record {
        items = p.items ++ (i ∷ []);
        previous_hash = i.item_hash;
        expected_sequence = p.expected_sequence + 1;
        v2_started = true;
      })

  -- The loop, with the lines that are behind it.
  unfoldable pub load : Bool → List Line → Progress → List Line → Result Loaded
  load repair_tail behind p [] = ok (record { end = p; lines = behind; quarantined = [] })
  load repair_tail behind p (l ∷ ls) = elim l.row [
    | malformed ↦
        if repair_tail && is_last ls
        then ok (record { end = p; lines = behind; quarantined = l ∷ [] })
        else err (value_error "Malformed rollout row")
    | parsed v ↦
        decode v >>= λ i. check_item i p >>= λ q. load repair_tail (behind ++ (l ∷ [])) q ls
  ]

  unfoldable pub load_verified : Bool → List Line → Result Loaded
  load_verified repair_tail lines = load repair_tail [] first_row lines
