-- ===== src/Rollout/Items.antt =====
-- agent-harness/src/agent_harness/rollout/items.py: the rows of a rollout, the JSON form in which
-- to_jsonable writes them, and item_from_dict. `str` and `int` of a value of another type than the program
-- writes is an error at once.
use general_agent_design.Common.{
  ℕ, String, ◌≡◌, refl, Option, none, some, [], ◌∷◌, ◌==◌, if◌then◌else◌, ap, ◌∙◌, false,
}
use general_agent_design.Common.Dict.{Dict, lookup}
use general_agent_design.Domain.Errors.{Result, ok, err, other, value_error, ◌>>=◌}
use general_agent_design.Domain.Json.{
  Arguments, Value, null, bool, int, pos, text, array, dict, no_element,
}
use general_agent_design.Domain.Payload.{
  wrong_type, read_text, read_text_or, read_optional, write_optional, read-write_optional, read_nat,
  dict_of, write_dict, dict_of-write_dict, chained,
}

pub data ItemStatus : Type 0 where
  started completed failed cancelled interrupted : ItemStatus

pub record RolloutItem : Type 0 where
  pub item_id : String
  pub item_type : String
  pub session_id : String
  pub thread_id : String
  pub turn_id : Option String
  pub agent_id : Option String
  pub parent_agent_id : Option String
  pub child_thread_id : Option String
  pub status : ItemStatus
  pub created_at : String
  pub completed_at : Option String
  pub payload : Arguments
  pub schema_version : ℕ
  pub sequence_number : ℕ
  pub previous_hash : String
  pub item_hash : String

-- The values of the enumeration, and the enumeration of a value
abbrev pub status_text : ItemStatus → String
status_text started = "STARTED"
status_text completed = "COMPLETED"
status_text failed = "FAILED"
status_text cancelled = "CANCELLED"
status_text interrupted = "INTERRUPTED"

abbrev pub status_of : String → Result ItemStatus
status_of s =
    if s == "STARTED"
    then ok started
    else if s == "COMPLETED"
    then ok completed
    else if s == "FAILED"
    then ok failed
    else if s == "CANCELLED"
    then ok cancelled
    else if s == "INTERRUPTED"
    then ok interrupted
    else err (value_error s)

status_of-status_text : (s : ItemStatus) → status_of (status_text s) ≡ ok s
status_of-status_text started = refl
status_of-status_text completed = refl
status_of-status_text failed = refl
status_of-status_text cancelled = refl
status_of-status_text interrupted = refl

-- to_jsonable of an item
unfoldable pub to_jsonable : RolloutItem → Dict Value
to_jsonable i =
    ("item_id", text i.item_id)
    ∷ ("item_type", text i.item_type)
    ∷ ("session_id", text i.session_id)
    ∷ ("thread_id", text i.thread_id)
    ∷ ("turn_id", write_optional i.turn_id)
    ∷ ("agent_id", write_optional i.agent_id)
    ∷ ("parent_agent_id", write_optional i.parent_agent_id)
    ∷ ("child_thread_id", write_optional i.child_thread_id)
    ∷ ("status", text (status_text i.status))
    ∷ ("created_at", text i.created_at)
    ∷ ("completed_at", write_optional i.completed_at)
    ∷ ("payload", dict (write_dict i.payload))
    ∷ ("schema_version", int (pos i.schema_version))
    ∷ ("sequence_number", int (pos i.sequence_number))
    ∷ ("previous_hash", text i.previous_hash)
    ∷ ("item_hash", text i.item_hash)
    ∷ []

-- str(data[key])
abbrev pub read_required : Option Value → Result String
read_required none = err (other "KeyError")
read_required (some v) = read_text (some v)

-- dict(value or {}) of an object and of what is false
abbrev pub read_payload : Option Value → Result Arguments
read_payload none = ok []
read_payload (some null) = ok []
read_payload (some (bool false)) = ok []
read_payload (some (array no_element)) = ok []
read_payload (some (dict ms)) = ok (dict_of ms)
read_payload _ = wrong_type

-- int(data.get(key, d)) of an integer
abbrev pub read_nat_or : ℕ → Option Value → Result ℕ
read_nat_or d none = ok d
read_nat_or d (some v) = read_nat (some v)

unfoldable pub item_from_dict : Dict Value → Result RolloutItem
item_from_dict d = do
  item_id ← read_required (lookup "item_id" d)
  item_type ← read_required (lookup "item_type" d)
  session_id ← read_required (lookup "session_id" d)
  thread_id ← read_required (lookup "thread_id" d)
  turn_id ← read_optional (lookup "turn_id" d)
  agent_id ← read_optional (lookup "agent_id" d)
  parent_agent_id ← read_optional (lookup "parent_agent_id" d)
  child_thread_id ← read_optional (lookup "child_thread_id" d)
  status ← read_required (lookup "status" d) >>= status_of
  created_at ← read_required (lookup "created_at" d)
  completed_at ← read_optional (lookup "completed_at" d)
  payload ← read_payload (lookup "payload" d)
  schema_version ← read_nat_or 1 (lookup "schema_version" d)
  sequence_number ← read_nat_or 0 (lookup "sequence_number" d)
  previous_hash ← read_text_or "" (lookup "previous_hash" d)
  item_hash ← read_text_or "" (lookup "item_hash" d)
  ok (record {
    item_id = item_id;
    item_type = item_type;
    session_id = session_id;
    thread_id = thread_id;
    turn_id = turn_id;
    agent_id = agent_id;
    parent_agent_id = parent_agent_id;
    child_thread_id = child_thread_id;
    status = status;
    created_at = created_at;
    completed_at = completed_at;
    payload = payload;
    schema_version = schema_version;
    sequence_number = sequence_number;
    previous_hash = previous_hash;
    item_hash = item_hash;
  })

-- The value that json.dumps is given for an item, and item_from_dict of any value that json.loads gives.
unfoldable pub encode : RolloutItem → Value
encode i = dict (write_dict (to_jsonable i))

unfoldable pub decode : Value → Result RolloutItem
decode (dict ms) = item_from_dict (dict_of ms)
decode _ = wrong_type

item_from_dict-to_jsonable : (i : RolloutItem) → item_from_dict (to_jsonable i) ≡ ok i
unfolding item_from_dict to_jsonable lookup
item_from_dict-to_jsonable i =
    chained (read_optional (some (write_optional i.turn_id))) i.turn_id _ _
      (read-write_optional i.turn_id)
      (chained (read_optional (some (write_optional i.agent_id))) i.agent_id _ _
        (read-write_optional i.agent_id)
        (chained (read_optional (some (write_optional i.parent_agent_id))) i.parent_agent_id _ _
          (read-write_optional i.parent_agent_id)
          (chained (read_optional (some (write_optional i.child_thread_id))) i.child_thread_id _ _
            (read-write_optional i.child_thread_id)
            (chained (status_of (status_text i.status)) i.status _ _
              (status_of-status_text i.status)
              (chained (read_optional (some (write_optional i.completed_at))) i.completed_at _ _
                (read-write_optional i.completed_at)
                (chained (ok (dict_of (write_dict i.payload))) i.payload
                  (λ p. ok (record i { payload = p })) _
                  (ap (λ d. ok d) (dict_of-write_dict i.payload)) refl))))))

-- An item is read back as it was written.
pub decode-encode : (i : RolloutItem) → decode (encode i) ≡ ok i
unfolding decode encode
decode-encode i =
    ap item_from_dict (dict_of-write_dict (to_jsonable i)) ∙ item_from_dict-to_jsonable i
