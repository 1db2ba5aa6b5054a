-- ===== src/Compaction.antt =====
-- agent-harness/src/agent_harness/compaction/service.py. `digest` is the SHA-256 of a text. A message
-- is kept with the fields that this service reads; the rows of "compaction_records" are listed oldest
-- first, each with the object that json.loads reads from its payload. The version of a record, 1, is no
-- field of it here.
pub mod Boundary
pub mod Replay
use Prim.Native.Nat.{Ordering}
use Prim.Native.String
use general_agent_design.Common.{
  ℕ, zero, suc, ◌-◌, ◌+◌, String, Bool, true, false, not, ◌&&◌, ◌||◌, Option, none, some, List, [],
  ◌∷◌, ◌++◌, any, all, contains, map, select, length, take, drop, leb, ◌==◌, if◌then◌else◌,
}
use general_agent_design.Domain.Errors.{Result, ok, err, value_error, other, ◌>>=◌}
use general_agent_design.Common.Dict.{Dict, lookup}
use general_agent_design.Domain.Json.{Value, text, int, pos, array}
use general_agent_design.Domain.Payload.{
  wrong_type, read_text, read_texts, write_texts, texts_of, texts_of-write_texts,
}
use general_agent_design.Agent.State.{
  MessageRole, system, user, assistant, tool, CanonicalMessage, ToolCall, RunStatus, completed,
}
use general_agent_design.Security.Models.{given}
use general_agent_design.Security.Rules.{list_eq}
use general_agent_design.Tools.Runtime.{take_text}
use general_agent_design.Tools.Schema.{at}

pub record CompactionRecord : Type 0 where
  pub compaction_id : String
  pub thread_id : String
  pub turn_id : String
  pub source_hash : String
  pub summary_text : String
  pub summary_hash : String
  pub protected_message_ids : List String
  pub created_at : String

-- A row of "compaction_records", by the columns that queries and the key read.
pub record CompactionRow : Type 0 where
  pub compaction_id : String
  pub thread_id : String
  pub created_at : String
  pub payload : Dict Value

-- The fields of a record, and its version, as a dict
unfoldable pub payload_of : CompactionRecord → Dict Value
payload_of r =
    ("compaction_id", text r.compaction_id)
    ∷ ("thread_id", text r.thread_id)
    ∷ ("turn_id", text r.turn_id)
    ∷ ("source_hash", text r.source_hash)
    ∷ ("summary_text", text r.summary_text)
    ∷ ("summary_hash", text r.summary_hash)
    ∷ ("protected_message_ids", array (write_texts r.protected_message_ids))
    ∷ ("created_at", text r.created_at)
    ∷ ("schema_version", int (pos 1))
    ∷ []

abbrev pub row_of : CompactionRecord → CompactionRow
row_of r = record {
  compaction_id = r.compaction_id;
  thread_id = r.thread_id;
  created_at = r.created_at;
  payload = payload_of r;
}

abbrev record_fields : List String
record_fields =
    "compaction_id" ∷ "thread_id" ∷ "turn_id" ∷ "source_hash" ∷ "summary_text" ∷ "summary_hash"
    ∷ "protected_message_ids" ∷ "created_at" ∷ "schema_version" ∷ []

-- The texts of CompactionRecord(**payload), with the identifiers that are read already
unfoldable pub fill_record : Dict Value → List String → Result CompactionRecord
fill_record d ids = do
  compaction_id ← read_text (lookup "compaction_id" d)
  thread_id ← read_text (lookup "thread_id" d)
  turn_id ← read_text (lookup "turn_id" d)
  source_hash ← read_text (lookup "source_hash" d)
  summary_text ← read_text (lookup "summary_text" d)
  summary_hash ← read_text (lookup "summary_hash" d)
  created_at ← read_text (lookup "created_at" d)
  ok (record {
    compaction_id = compaction_id;
    thread_id = thread_id;
    turn_id = turn_id;
    source_hash = source_hash;
    summary_text = summary_text;
    summary_hash = summary_hash;
    protected_message_ids = ids;
    created_at = created_at;
  })

-- The tuple of identifiers, and CompactionRecord(**payload), which takes no other argument.
unfoldable pub record_from : Dict Value → Result CompactionRecord
record_from d =
    if not (all (λ e. contains e.0 record_fields) d)
    then wrong_type
    else read_texts (lookup "protected_message_ids" d) >>= fill_record d

-- A canonical message; `external_context` is the truth of that entry of its metadata.
pub record HistoryMessage : Type 0 where
  pub message : CanonicalMessage
  pub message_id : String
  pub external_context : Bool

-- The fields of a RunState that are read or written.
pub record History : Type 0 where
  pub status : RunStatus
  pub run_id : String
  pub turn_id : Option String
  pub session_summary : String
  pub messages : List HistoryMessage

pub record Service : Type 0 where
  pub retain_recent_turns : ℕ
  pub max_summary_chars : ℕ

abbrev pub is_completed : RunStatus → Bool
is_completed completed = true
is_completed _ = false

abbrev is_user_role : MessageRole → Bool
is_user_role user = true
is_user_role _ = false

abbrev is_tool_role : MessageRole → Bool
is_tool_role tool = true
is_tool_role _ = false

abbrev has_calls : List ToolCall → Bool
has_calls [] = false
has_calls _ = true

-- A message that opens a turn of the user.
abbrev pub opens_turn : HistoryMessage → Bool
opens_turn m = is_user_role m.message.role && not m.external_context

abbrev pub is_protected : HistoryMessage → Bool
is_protected m = has_calls m.message.tool_calls || is_tool_role m.message.role

-- The indexes of the messages that open a turn, the first message having the given index.
unfoldable pub user_indexes : ℕ → List HistoryMessage → List ℕ
user_indexes i [] = []
user_indexes i (m ∷ ms) =
    if opens_turn m then i ∷ user_indexes (suc i) ms else user_indexes (suc i) ms

-- xs[i], with 0 past the end
abbrev pub nth : ℕ → List ℕ → ℕ
nth i [] = 0
nth zero (x ∷ xs) = x
nth (suc i) (x ∷ xs) = nth i xs

-- user_indexes[-retain]; for 0 that is the first index.
unfoldable pub boundary : ℕ → List ℕ → ℕ
boundary zero xs = nth 0 xs
boundary (suc r) xs = nth (length xs - suc r) xs

abbrev role_text : MessageRole → String
role_text system = "system"
role_text user = "user"
role_text assistant = "assistant"
role_text tool = "tool"

-- "\n".join(...)
abbrev pub join_lines : List String → String
join_lines [] = ""
join_lines (s ∷ []) = s
join_lines (s ∷ t ∷ ts) = at s (at "\n" (join_lines (t ∷ ts)))

unfoldable pub source_of : List HistoryMessage → String
source_of ms = join_lines (map (λ m. at (role_text m.message.role) (at ": " m.message.content)) ms)

abbrev pub is_nonempty : List HistoryMessage → Bool
is_nonempty [] = false
is_nonempty _ = true

abbrev pub text_or_empty : Option String → String
text_or_empty none = ""
text_or_empty (some s) = s

-- The parts of a history: the protected and the compactable messages before the boundary, and the
-- rest. A message equal to a protected one is protected itself, so "not in protected" is a test of it.
pub record Split : Type 0 where
  pub protected : List HistoryMessage
  pub compactable : List HistoryMessage
  pub recent : List HistoryMessage

unfoldable pub split_at : ℕ → List HistoryMessage → Split
split_at n ms = record {
  protected = select is_protected (take n ms);
  compactable = select (λ m. not (is_protected m)) (take n ms);
  recent = drop n ms;
}

abbrev pub split : Service → List HistoryMessage → Split
split c ms = split_at (boundary c.retain_recent_turns (user_indexes 0 ms)) ms

-- A text before another in SQL's order, which is that of the bytes.
abbrev less_text : String → String → Bool
less_text s t = elim (String.compare s t) [ Ordering.lt ↦ true | _ ↦ false ]

-- ORDER BY created_at DESC, compaction_id DESC LIMIT 1
abbrev pub precedes : CompactionRow → CompactionRow → Bool
precedes r q =
    less_text r.created_at q.created_at
    || (r.created_at == q.created_at && less_text r.compaction_id q.compaction_id)

abbrev pub later : CompactionRow → Option CompactionRow → Option CompactionRow
later r none = some r
later r (some q) = if precedes r q then some q else some r

unfoldable pub newest_row : String → List CompactionRow → Option CompactionRow
newest_row thread_id [] = none
newest_row thread_id (r ∷ rs) =
    let rest = newest_row thread_id rs in if r.thread_id == thread_id then later r rest else rest

abbrev pub read_row : Option CompactionRow → Result (Option CompactionRecord)
read_row none = ok none
read_row (some r) = record_from r.payload >>= λ c. ok (some c)

-- CompactionService.latest
unfoldable pub latest : String → List CompactionRow → Result (Option CompactionRecord)
latest thread_id rows = read_row (newest_row thread_id rows)

module _ (digest : String → String) (c : Service) where
  -- The record of a compaction with the given identifier and time.
  unfoldable pub record_of : History → String → String → String → Split → CompactionRecord
  record_of s turn_id new_id now parts =
      let source = source_of parts.compactable in
      let summary = take_text c.max_summary_chars source in
      record {
        compaction_id = new_id;
        thread_id = s.run_id;
        turn_id = turn_id;
        source_hash = digest source;
        summary_text = summary;
        summary_hash = digest summary;
        protected_message_ids = map (λ m. m.message_id) parts.protected;
        created_at = now;
      }

  abbrev pub compacted : History → String → Split → History
  compacted s summary parts = record s {
    session_summary = summary;
    messages = parts.protected ++ parts.recent;
  }

  -- The INSERT and what follows it.
  abbrev pub insert_record :
      CompactionRecord
      → Split
      → History
      → List CompactionRow
      → Result (Option CompactionRecord) × History × List CompactionRow
  insert_record r parts s rows =
      if any (λ q. r.compaction_id == q.compaction_id) rows
      then (err (other "UNIQUE constraint failed"), s, rows)
      else (ok (some r), compacted s r.summary_text parts, rows ++ row_of r ∷ [])

  -- CompactionService.compact
  unfoldable pub compact :
      String
      → String
      → History
      → List CompactionRow
      → Result (Option CompactionRecord) × History × List CompactionRow
  unfolding record_of
  compact new_id now s rows =
      if not (is_completed s.status) || not (given s.turn_id)
      then (ok none, s, rows)
      else if leb (length (user_indexes 0 s.messages)) c.retain_recent_turns
      then (ok none, s, rows)
      else let parts = split c s.messages in
        if not (is_nonempty parts.compactable)
        then (ok none, s, rows)
        else insert_record (record_of s (text_or_empty s.turn_id) new_id now parts) parts s rows

  -- The checks of apply_latest on the parts of a history, and their effect.
  unfoldable pub reapply :
      CompactionRecord → Split → History → Result (Option CompactionRecord) × History
  reapply r parts s =
      if not (digest (source_of parts.compactable) == r.source_hash)
      then (err (value_error "Compaction source integrity check failed"), s)
      else if not (list_eq (map (λ m. m.message_id) parts.protected) r.protected_message_ids)
      then (err (value_error "Compaction protected-message set changed"), s)
      else (ok (some r), compacted s r.summary_text parts)

  abbrev pub apply_record :
      Option CompactionRecord → History → Result (Option CompactionRecord) × History
  apply_record none s = (ok none, s)
  apply_record (some r) s =
      if not (digest r.summary_text == r.summary_hash)
      then (err (value_error "Compaction summary integrity check failed"), s)
      else if not (s.session_summary == "") && digest s.session_summary == r.summary_hash
      then (ok (some r), s)
      else if leb (length (user_indexes 0 s.messages)) c.retain_recent_turns
      then (err (value_error "Compaction source boundary is unavailable"), s)
      else reapply r (split c s.messages) s

  abbrev pub apply_loaded :
      Result (Option CompactionRecord) → History → Result (Option CompactionRecord) × History
  apply_loaded (ok o) s = apply_record o s
  apply_loaded (err x) s = (err x, s)

  -- CompactionService.apply_latest
  unfoldable pub apply_latest :
      History → List CompactionRow → Result (Option CompactionRecord) × History
  unfolding reapply
  apply_latest s rows = apply_loaded (latest s.run_id rows) s
