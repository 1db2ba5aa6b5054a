-- ===== src/Rollout/Recorder/History.antt =====
-- The file of a RolloutRecorder (threads/recorder.py) over any steps.
use general_agent_design.Common.{
  ◌≡◌, refl, ap, String, true, ◌⊎◌, inl, inr, List, [], ◌∷◌, is_some, arith,
}
use general_agent_design.Rollout.Items.{RolloutItem}
use general_agent_design.Rollout.Recorder.{
  Command, Writer, absent, at_work, ended_, Recorder, Fate, serve, writer_step,
}
use general_agent_design.Rollout.Recorder.Steps.{is_at_work}

module _ (digest : RolloutItem → String) where
  pub writer_step-cases :
      (r : Recorder) (fate : Fate)
      → (writer_step digest fate r ≡ r)
        ⊎ ((c : Command) × (cs : List Command) × (is_at_work r.writer ≡ true)
            × (writer_step digest fate r ≡ serve digest fate c (record r { queue = cs })))
  unfolding writer_step
  writer_step-cases r fate = by_writer r.writer r.queue refl refl
    where
      by_writer :
          (w : Writer) (q : List Command)
          → r.writer ≡ w
          → r.queue ≡ q
          → (writer_step digest fate r ≡ r)
            ⊎ ((c : Command) × (cs : List Command) × (is_at_work r.writer ≡ true)
                × (writer_step digest fate r ≡ serve digest fate c (record r { queue = cs })))
      by_writer at_work [] e f = inl (ground arith)
      by_writer at_work (c ∷ cs) e f = inr (c, cs, ap is_at_work e, ground arith)
      by_writer absent q e f = inl (ground arith)
      by_writer ended_ q e f = inl (ground arith)

  -- A call that leaves the file and the counters alone.
  record SameFile (r s : Recorder) : Type 0 where
    same_lines : s.lines ≡ r.lines
    same_failure : s.failure ≡ r.failure
    same_sequence : s.sequence ≡ r.sequence
    same_hash : s.previous_hash ≡ r.previous_hash
    same_rest : is_some r.failure ≡ true → s.writer ≡ r.writer
