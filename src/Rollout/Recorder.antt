-- ===== src/Rollout/Recorder.antt =====
-- agent-harness/src/agent_harness/threads/recorder.py: RolloutRecorder. The queue, the writer task and
-- the file are fields of the recorder; a waiting caller is the number of its future, and `acks` holds
-- the futures that have been set. How an append to the file ends is a parameter of the writer's step.
-- The callback on_failure, the timeouts' length and the creation of the directory are left out.
pub mod Writes
pub mod Steps
pub mod Soundness
pub mod History
pub mod Liveness
use mathlib.Core.Option
use general_agent_design.Common.{
  ℕ, ◌+◌, String, Bool, true, false, Option, none, some, List, [], ◌∷◌, ◌++◌, map, select, take,
  drop, ◌==◌, if◌then◌else◌,
}
use general_agent_design.Domain.Errors.{Exception, Result, ok, err, other, ◌>>=◌}
use general_agent_design.Rollout.Items.{RolloutItem}
use general_agent_design.Rollout.Integrity.{malformed, Line, line, unended_line, hash_item}

pub data RecorderState : Type 0 where
  open_ failed closing closed : RecorderState

pub data Command : Type 0 where
  write : List RolloutItem → Command
  flush_command shutdown_command : ℕ → Command

-- The writer task: not created, at work, or returned.
pub data Writer : Type 0 where
  absent at_work ended_ : Writer

pub record Recorder : Type 0 where
  pub state : RecorderState
  pub failure : Option Exception
  pub writer : Writer
  pub queue : List Command
  pub sequence : ℕ
  pub previous_hash : String
  pub lines : List Line
  pub acks : List (ℕ × Result (Unit {0}))

-- What is on disk of the first line that is not there as a whole: nothing, a part of its text, or all of
-- its text without the newline. A part of the text of an object is no JSON text.
pub data Tail : Type 0 where
  nothing a_part all_but_newline : Tail

-- How _append_items ends: everything is on disk, or it raises with some items numbered, some whole
-- lines on disk and this much of the next.
pub data Fate : Type 0 where
  durable_write : Fate
  torn : ℕ → ℕ → Tail → Exception → Fate

-- What a writing handle leaves when it appends a line: an unended last line swallows it.
unfoldable pub add_line : List Line → Line → List Line
add_line [] l = l ∷ []
add_line (k ∷ []) l =
    if k.ended then k ∷ l ∷ [] else record { row = malformed; ended = l.ended } ∷ []
add_line (k ∷ k' ∷ ks) l = k ∷ add_line (k' ∷ ks) l

-- The unended line behind the whole ones, of the items that are not on disk as whole lines.
abbrev pub tail_lines : Tail → List RolloutItem → List Line
tail_lines nothing is = []
tail_lines a_part [] = []
tail_lines a_part (i ∷ is) = record { row = malformed; ended = false } ∷ []
tail_lines all_but_newline [] = []
tail_lines all_but_newline (i ∷ is) = unended_line i ∷ []

abbrev pub add_lines : List Line → List Line → List Line
add_lines ls [] = ls
add_lines ls (k ∷ ks) = add_lines (add_line ls k) ks

abbrev pub is_open : RecorderState → Bool
is_open open_ = true
is_open _ = false

unfoldable pub raise_if_failed : Recorder → Result (Unit {0})
raise_if_failed r = elim r.failure [ none ↦ ok tt | some x ↦ err x ]

unfoldable pub raise_if_unavailable : Recorder → Result (Unit {0})
unfolding raise_if_failed
raise_if_unavailable r = raise_if_failed r >>= λ _.
    if is_open r.state then ok tt else err (other "Rollout recorder is not open")

abbrev pub started : Writer → Writer
started absent = at_work
started w = w

unfoldable pub start : Recorder → Result Recorder
unfolding raise_if_unavailable
start r = raise_if_unavailable r >>= λ _. ok (record r { writer = started r.writer })

-- record and record_nowait
unfoldable pub record_items : List RolloutItem → Recorder → Result Recorder
unfolding raise_if_unavailable start
record_items [] r = raise_if_unavailable r >>= λ _. ok r
record_items (i ∷ is) r =
    start r >>= λ s. ok (record s { queue = s.queue ++ (write (i ∷ is) ∷ []) })

-- flush up to `await ack`
unfoldable pub flush : ℕ → Recorder → Result Recorder
unfolding start
flush ack r = start r >>= λ s. ok (record s { queue = s.queue ++ (flush_command ack ∷ []) })

-- shutdown up to the wait for `ack`
unfoldable pub shutdown : ℕ → Recorder → Result Recorder
unfolding raise_if_failed
shutdown ack r = raise_if_failed r >>= λ _. elim r.state [
  | closed ↦ ok r
  | _ ↦ elim r.writer [
    | absent ↦ ok (record r { state = closed })
    | _ ↦ ok (record r { state = closing; queue = r.queue ++ (shutdown_command ack ∷ []) })
  ]
]

-- shutdown after its waits, which end normally or raise.
unfoldable pub finish_shutdown : Result (Unit {0}) → Recorder → Result Recorder
unfolding raise_if_failed
finish_shutdown (ok _) r = ok (record r { state = closed })
finish_shutdown (err x) r = raise_if_failed r >>= λ _. err x

-- The futures that _set_failure fails.
abbrev pub failed_acks : Exception → List Command → List (ℕ × Result (Unit {0}))
failed_acks x [] = []
failed_acks x (write is ∷ cs) = failed_acks x cs
failed_acks x (flush_command k ∷ cs) = (k, err x) ∷ failed_acks x cs
failed_acks x (shutdown_command k ∷ cs) = (k, err x) ∷ failed_acks x cs

-- _set_failure
unfoldable pub set_failure : Exception → Recorder → Recorder
set_failure x r = elim r.failure [
  | some y ↦ r
  | none ↦ record r {
    failure = some x;
    state = failed;
    acks = r.acks ++ failed_acks x r.queue;
    queue = [];
  }
]

abbrev pub after_append : Result (Unit {0}) × Recorder → Recorder
after_append (ok _, r) = r
after_append (err x, r) = record (set_failure x r) { writer = ended_ }

module _ (digest : RolloutItem → String) where
  -- The item as it goes to disk.
  unfoldable pub durable : ℕ → String → RolloutItem → RolloutItem
  unfolding hash_item
  durable sequence previous_hash i =
      let numbered = record i {
        schema_version = 2;
        sequence_number = sequence;
        previous_hash = previous_hash;
        item_hash = "";
      } in
      record numbered { item_hash = hash_item digest numbered }

  -- One round of the loop in _append_items, without the file.
  unfoldable pub number : Recorder → RolloutItem → RolloutItem × Recorder
  number r i =
      let d = durable (r.sequence + 1) r.previous_hash i in
      (d, record r { sequence = r.sequence + 1; previous_hash = d.item_hash })

  -- The items as they go to disk, and the recorder's counters after them.
  unfoldable pub number_all : Recorder → List RolloutItem → List RolloutItem × Recorder
  unfolding number
  number_all r [] = ([], r)
  number_all r (i ∷ is) = let (d, s) = number r i in let (ds, t) = number_all s is in (d ∷ ds, t)

  -- _append_items
  unfoldable pub append_items : Fate → List RolloutItem → Recorder → Result (Unit {0}) × Recorder
  append_items durable_write is r =
      let (ds, s) = number_all r is in (ok tt, record s { lines = add_lines s.lines (map line ds) })
  append_items (torn numbered on_disk tail x) is r =
      let (ds, s) = number_all r (take numbered is) in
      (
        err x,
        record s {
          lines =
              add_lines (add_lines s.lines (map line (take on_disk ds)))
                (tail_lines tail (drop on_disk ds));
        },
      )

  abbrev pub serve : Fate → Command → Recorder → Recorder
  serve fate (write is) r = after_append (append_items fate is r)
  serve fate (flush_command k) r = record r { acks = r.acks ++ ((k, ok tt) ∷ []) }
  serve fate (shutdown_command k) r = record r {
    acks = r.acks ++ ((k, ok tt) ∷ []);
    writer = ended_;
  }

  -- One round of _writer.
  unfoldable pub writer_step : Fate → Recorder → Recorder
  unfolding append_items set_failure
  writer_step fate r = elim r.writer [
    | at_work ↦ elim r.queue [ [] ↦ r | c ∷ cs ↦ serve fate c (record r { queue = cs }) ]
    | _ ↦ r
  ]
