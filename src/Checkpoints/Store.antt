-- ===== src/Checkpoints/Store.antt =====
-- The tables "checkpoints" and "rollout_outbox" of agent-harness/src/agent_harness/checkpoints/store.py, and
-- the hash of an envelope. A table is the list of its rows, oldest first; a row's payload is the object
-- that json.loads reads from its text.
-- `digest` is the SHA-256 of the canonical JSON text of an envelope.
use general_agent_design.Common.{
  ℕ, String, Bool, true, false, not, ◌&&◌, ◌||◌, Option, none, some, List, [], ◌∷◌, ◌++◌, any, map,
  eqb, ltb, ◌==◌, if◌then◌else◌,
}
use general_agent_design.Common.Dict.{Dict}
use general_agent_design.Domain.Errors.{Result, ok, err, value_error, other, ◌>>=◌}
use general_agent_design.Domain.Json.{Value}
use general_agent_design.Checkpoints.Envelope.{to_jsonable, checkpoint_from_dict}
pub use general_agent_design.Checkpoints.Envelope.{CheckpointEnvelope}

-- A row of "checkpoints", by the columns that queries and constraints read.
pub record CheckpointRow : Type 0 where
  pub checkpoint_id : String
  pub thread_id : String
  pub turn_id : String
  pub checkpoint_sequence : ℕ
  pub payload : Dict Value

-- An event for the rollout, and a row of "rollout_outbox".
pub record OutboxEvent : Type 0 where
  pub event_id : String
  pub sequence_number : ℕ
  pub payload : Dict Value

pub record OutboxRow : Type 0 where
  pub event : OutboxEvent
  pub thread_id : String
  pub projected : Bool

pub record CheckpointStore : Type 0 where
  pub checkpoints : List CheckpointRow
  pub outbox : List OutboxRow

-- Rows that the constraints PRIMARY KEY(checkpoint_id) and UNIQUE(thread_id, turn_id,
-- checkpoint_sequence) do not let stand together.
abbrev pub conflicts : CheckpointRow → CheckpointRow → Bool
conflicts r q =
    r.checkpoint_id == q.checkpoint_id
    || (r.thread_id == q.thread_id
        && (r.turn_id == q.turn_id && eqb r.checkpoint_sequence q.checkpoint_sequence))

abbrev pub row_of : CheckpointEnvelope → CheckpointRow
row_of c = record {
  checkpoint_id = c.checkpoint_id;
  thread_id = c.thread_id;
  turn_id = c.turn_id;
  checkpoint_sequence = c.checkpoint_sequence;
  payload = to_jsonable c;
}

-- INSERT OR IGNORE INTO rollout_outbox
abbrev ignored : String → OutboxEvent → OutboxRow → Bool
ignored thread_id e r =
    e.event_id == r.event.event_id
    || (thread_id == r.thread_id && eqb e.sequence_number r.event.sequence_number)

unfoldable pub insert_events : String → List OutboxEvent → List OutboxRow → List OutboxRow
insert_events thread_id [] rows = rows
insert_events thread_id (e ∷ es) rows = insert_events thread_id es (
    if any (ignored thread_id e) rows
    then rows
    else rows ++ record { event = e; thread_id = thread_id; projected = false } ∷ [])

-- CheckpointStore.mark_projected
unfoldable pub mark_projected : String → CheckpointStore → CheckpointStore
mark_projected event_id s = record s {
  outbox =
      map (λ r. if r.event.event_id == event_id then record r { projected = true } else r) s.outbox;
}

abbrev pub of_turn : String → String → CheckpointRow → Bool
of_turn thread_id turn_id r = r.thread_id == thread_id && r.turn_id == turn_id

-- ORDER BY checkpoint_sequence DESC LIMIT 1, among the rows of a turn
abbrev pub higher : CheckpointRow → Option CheckpointRow → Option CheckpointRow
higher r none = some r
higher r (some q) = if ltb q.checkpoint_sequence r.checkpoint_sequence then some r else some q

unfoldable pub newest : String → String → List CheckpointRow → Option CheckpointRow
newest thread_id turn_id [] = none
newest thread_id turn_id (r ∷ rs) =
    let rest = newest thread_id turn_id rs in
    if of_turn thread_id turn_id r then higher r rest else rest

-- ORDER BY rowid DESC LIMIT 1, among the rows of a thread
abbrev last_or : Option CheckpointRow → CheckpointRow → String → Option CheckpointRow
last_or (some q) r thread_id = some q
last_or none r thread_id = if r.thread_id == thread_id then some r else none

unfoldable pub last_row : String → List CheckpointRow → Option CheckpointRow
last_row thread_id [] = none
last_row thread_id (r ∷ rs) = last_or (last_row thread_id rs) r thread_id

-- The row that the query of CheckpointStore.latest returns.
abbrev pub chosen : String → Option String → List CheckpointRow → Option CheckpointRow
chosen thread_id none rows = last_row thread_id rows
chosen thread_id (some turn_id) rows =
    if turn_id == "" then last_row thread_id rows else newest thread_id turn_id rows

module _ (digest : CheckpointEnvelope → String) where
  -- CheckpointEnvelope.with_hash
  unfoldable pub with_hash : CheckpointEnvelope → CheckpointEnvelope
  with_hash c = record c { payload_hash = digest (record c { payload_hash = "" }) }

  -- CheckpointEnvelope.verify
  unfoldable pub verify : CheckpointEnvelope → Bool
  unfolding with_hash
  verify c = not (c.payload_hash == "") && (with_hash c).payload_hash == c.payload_hash

  -- CheckpointStore.save: one transaction, which a constraint rolls back.
  unfoldable pub save :
      CheckpointEnvelope
      → List OutboxEvent
      → CheckpointStore
      → Result CheckpointEnvelope × CheckpointStore
  unfolding with_hash
  save c events s =
      let durable = with_hash c in
      if any (conflicts (row_of durable)) s.checkpoints
      then (err (other "UNIQUE constraint failed"), s)
      else (
        ok durable,
        record {
          checkpoints = s.checkpoints ++ row_of durable ∷ [];
          outbox = insert_events durable.thread_id events s.outbox;
        },
      )

  abbrev pub verified : CheckpointEnvelope → Result (Option CheckpointEnvelope)
  verified c =
      if verify c then ok (some c) else err (value_error "Checkpoint integrity check failed")

  -- The row's envelope and the check of its hash
  abbrev pub load : Option CheckpointRow → Result (Option CheckpointEnvelope)
  load none = ok none
  load (some r) = checkpoint_from_dict r.payload >>= verified

  -- CheckpointStore.latest
  unfoldable pub latest :
      String → Option String → CheckpointStore → Result (Option CheckpointEnvelope)
  unfolding verify
  latest thread_id turn_id s = load (chosen thread_id turn_id s.checkpoints)
