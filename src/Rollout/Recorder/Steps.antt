-- ===== src/Rollout/Recorder/Steps.antt =====
-- The recorder of threads/recorder.py as a transition system: the calls of the program and the rounds of
-- its writer, in any order.
use general_agent_design.Common.{ℕ, ◌≡◌, String, Bool, true, false, List}
use general_agent_design.Domain.Errors.{ok}
use general_agent_design.Rollout.Items.{RolloutItem}
use general_agent_design.Rollout.Recorder.{
  Writer, at_work, Recorder, Fate, record_items, flush, shutdown, finish_shutdown, writer_step,
}

abbrev pub is_at_work : Writer → Bool
is_at_work at_work = true
is_at_work _ = false

-- One call of the program, or one round of the writer.
pub data Step (digest : RolloutItem → String) : Recorder → Recorder → Type 0 where
  records : {r s : Recorder} (is : List RolloutItem) → record_items is r ≡ ok s → Step digest r s
  flushes : {r s : Recorder} (ack : ℕ) → flush ack r ≡ ok s → Step digest r s
  shuts : {r s : Recorder} (ack : ℕ) → shutdown ack r ≡ ok s → Step digest r s
  closes : {r s : Recorder} → finish_shutdown (ok tt) r ≡ ok s → Step digest r s
  writes : (r : Recorder) (fate : Fate) → Step digest r (writer_step digest fate r)

pub data Reach (digest : RolloutItem → String) : Recorder → Recorder → Type 0 where
  initial : (r : Recorder) → Reach digest r r
  after : {r s t : Recorder} → Reach digest r s → Step digest s t → Reach digest r t
