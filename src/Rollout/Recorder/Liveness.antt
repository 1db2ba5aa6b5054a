-- ===== src/Rollout/Recorder/Liveness.antt =====
-- The acknowledgements of RolloutRecorder.flush (threads/recorder.py).
use general_agent_design.Common.{
  ℕ, zero, suc, ◌<◌, ◌≡◌, refl, sym, ◌∙◌, String, Bool, true, false, ◌⊎◌, inl, inr, none, List, [],
  ◌∷◌, ◌++◌, any, any-append, length, eqb, take, arith,
}
use general_agent_design.Domain.Errors.{Exception, Result, ok}
use general_agent_design.Rollout.Items.{RolloutItem}
use general_agent_design.Rollout.Recorder.History.{writer_step-cases}
use general_agent_design.Rollout.Recorder.{
  Command, write, flush_command, shutdown_command, at_work, Recorder, Fate, durable_write, torn,
  failed_acks, set_failure, number, number_all, append_items, serve, writer_step,
}

abbrev pub is_acked : ℕ → List (ℕ × Result (Unit {0})) → Bool
is_acked k acks = any (λ a. eqb k a.0) acks

abbrev pub no_shutdown : List Command → Bool
no_shutdown [] = true
no_shutdown (shutdown_command j ∷ cs) = false
no_shutdown (c ∷ cs) = no_shutdown cs

failed_acks-acked :
    (x : Exception) (front back : List Command) (k : ℕ)
    → is_acked k (failed_acks x (front ++ flush_command k ∷ back)) ≡ true
failed_acks-acked x [] back k = ground arith
failed_acks-acked x (write is ∷ front) back k = failed_acks-acked x front back k
failed_acks-acked x (flush_command j ∷ front) back k =
    ground (arith, failed_acks-acked x front back k)
failed_acks-acked x (shutdown_command j ∷ front) back k =
    ground (arith, failed_acks-acked x front back k)

more_acks :
    (k : ℕ) (acks new : List (ℕ × Result (Unit {0})))
    → is_acked k acks ≡ true
    → is_acked k (acks ++ new) ≡ true
more_acks k acks new h =
    ground (arith, h, any-append (λ (a : ℕ × Result (Unit {0})). eqb k a.0) acks new)

last_acked :
    (k : ℕ) (acks : List (ℕ × Result (Unit {0}))) → is_acked k (acks ++ (k, ok tt) ∷ []) ≡ true
last_acked k [] = ground arith
last_acked k (a ∷ acks) = ground (arith, last_acked k acks)

shorter : (n : ℕ) (cs : List Command) → suc (length cs) ≡ suc n → length cs ≡ n
shorter n cs l = omega arith

set_failure-acked :
    (k : ℕ) (x : Exception) (r : Recorder)
    → r.failure ≡ none
    → is_acked k (failed_acks x r.queue) ≡ true
    → is_acked k (set_failure x r).acks ≡ true
unfolding set_failure
set_failure-acked k x r f h =
    ground (
      arith,
      f,
      any-append (λ (a : ℕ × Result (Unit {0})). eqb k a.0) r.acks (failed_acks x r.queue),
    )

module _ (digest : RolloutItem → String) where
  record SameButFile (r s : Recorder) : Type 0 where
    writer : s.writer ≡ r.writer
    failure : s.failure ≡ r.failure
    queue : s.queue ≡ r.queue
    acks : s.acks ≡ r.acks

  number_all-SameButFile :
      (r : Recorder) (is : List RolloutItem) → SameButFile r (number_all digest r is).1
  unfolding number_all number
  number_all-SameButFile r [] = record { writer = refl; failure = refl; queue = refl; acks = refl }
  number_all-SameButFile r (i ∷ is) =
      let b = number_all-SameButFile (number digest r i).1 is in
      record { writer = b.writer; failure = b.failure; queue = b.queue; acks = b.acks }

  -- The writer's rounds, each with the fate of its write.
  unfoldable pub run_writer : List Fate → Recorder → Recorder
  run_writer [] r = r
  run_writer (fate ∷ fates) r = run_writer fates (writer_step digest fate r)

  is_acked-serve :
      (k : ℕ) (fate : Fate) (c : Command) (r : Recorder)
      → is_acked k r.acks ≡ true
      → is_acked k (serve digest fate c r).acks ≡ true
  unfolding append_items set_failure
  is_acked-serve k durable_write (write is) r h =
      let b = number_all-SameButFile r is in ground (arith, b.acks)
  is_acked-serve k (torn n m tail x) (write is) r h =
      let b = number_all-SameButFile r (take n is) in
      ground (
        arith,
        b.acks,
        any-append (λ (a : ℕ × Result (Unit {0})). eqb k a.0) r.acks (failed_acks x r.queue),
        b.queue,
      )
  is_acked-serve k fate (flush_command j) r h = more_acks k r.acks _ h
  is_acked-serve k fate (shutdown_command j) r h = more_acks k r.acks _ h

  is_acked-writer_step :
      (k : ℕ) (fate : Fate) (r : Recorder)
      → is_acked k r.acks ≡ true
      → is_acked k (writer_step digest fate r).acks ≡ true
  is_acked-writer_step k fate r h = elim (writer_step-cases digest r fate) [
    | inl p ↦ coe 1 0 (i. is_acked k (p i).acks ≡ true) h
    | inr (c, cs, w, p) ↦
        coe 1 0 (i. is_acked k (p i).acks ≡ true)
          (is_acked-serve k fate c (record r { queue = cs }) h)
  ]

  is_acked-run_writer :
      (k : ℕ) (fates : List Fate) (r : Recorder)
      → is_acked k r.acks ≡ true
      → is_acked k (run_writer fates r).acks ≡ true
  unfolding run_writer
  is_acked-run_writer k [] r h = h
  is_acked-run_writer k (fate ∷ fates) r h =
      is_acked-run_writer k fates (writer_step digest fate r) (is_acked-writer_step k fate r h)

  writer_step-serve :
      (fate : Fate) (r : Recorder) (c : Command) (cs : List Command)
      → r.writer ≡ at_work
      → r.queue ≡ c ∷ cs
      → writer_step digest fate r ≡ serve digest fate c (record r { queue = cs })
  unfolding writer_step
  writer_step-serve fate r c cs w q = rw (w, q)

  -- A recorder at work that has a flush in its queue, before any shutdown.
  pub record IsWaiting (k n : ℕ) (r : Recorder) : Type 0 where
    pub at_it : r.writer ≡ at_work
    pub sound : r.failure ≡ none
    pub front : List Command
    pub back : List Command
    pub queued : r.queue ≡ front ++ flush_command k ∷ back
    pub open_front : no_shutdown front ≡ true
    pub ahead : length front ≡ n

  serve-IsWaiting :
      (k : ℕ) (fate : Fate) (c : Command) (front back : List Command) (r : Recorder)
      → r.writer ≡ at_work
      → r.failure ≡ none
      → r.queue ≡ front ++ flush_command k ∷ back
      → no_shutdown (c ∷ front) ≡ true
      → (is_acked k (serve digest fate c r).acks ≡ true)
        ⊎ IsWaiting k (length front) (serve digest fate c r)
  unfolding append_items set_failure
  serve-IsWaiting k fate (shutdown_command j) front back r w f q o = absurd cc
  serve-IsWaiting k fate (flush_command j) front back r w f q o = inr (record {
    at_it = w;
    sound = f;
    front = front;
    back = back;
    queued = q;
    open_front = o;
    ahead = refl;
  })
  serve-IsWaiting k durable_write (write is) front back r w f q o =
      let b = number_all-SameButFile r is in
      inr (record {
        at_it = b.writer ∙ w;
        sound = b.failure ∙ f;
        front = front;
        back = back;
        queued = b.queue ∙ q;
        open_front = o;
        ahead = refl;
      })
  serve-IsWaiting k (torn n m tail x) (write is) front back r w f q o =
      let b = number_all-SameButFile r (take n is) in
      inl (
        set_failure-acked k x (append_items digest (torn n m tail x) is r).1 (b.failure ∙ f) (
          coe 0 1 (i. is_acked k (failed_acks x (sym (b.queue ∙ q) i)) ≡ true)
            (failed_acks-acked x front back k)))

  -- The flush is the next command, or one command is served before it.
  step-acked :
      (k n : ℕ) (fate : Fate) (r : Recorder)
      → IsWaiting k (suc n) r
      → (is_acked k (writer_step digest fate r).acks ≡ true)
        ⊎ IsWaiting k n (writer_step digest fate r)
  step-acked k n fate r a = by_front a.front a.queued a.open_front a.ahead
    where
      by_front :
          (front : List Command)
          → r.queue ≡ front ++ flush_command k ∷ a.back
          → no_shutdown front ≡ true
          → length front ≡ suc n
          → (is_acked k (writer_step digest fate r).acks ≡ true)
            ⊎ IsWaiting k n (writer_step digest fate r)
      by_front [] q o l = absurd (omega arith)
      by_front (c ∷ front) q o l =
          coe 1 0
            (i.
              (is_acked k
                  (writer_step-serve fate r c (front ++ flush_command k ∷ a.back) a.at_it q i).acks
                ≡ true)
              ⊎ IsWaiting k n
                  (writer_step-serve fate r c (front ++ flush_command k ∷ a.back) a.at_it q i))
            (coe 0 1
              (j.
                (is_acked k
                    (serve digest fate c
                      (record r { queue = front ++ flush_command k ∷ a.back })).acks
                  ≡ true)
                ⊎ IsWaiting k (shorter n front l j)
                    (serve digest fate c (record r { queue = front ++ flush_command k ∷ a.back })))
              (serve-IsWaiting k fate c front a.back
                (record r { queue = front ++ flush_command k ∷ a.back }) a.at_it a.sound refl o))

  first-acked :
      (k : ℕ) (fate : Fate) (r : Recorder)
      → IsWaiting k 0 r
      → is_acked k (writer_step digest fate r).acks ≡ true
  first-acked k fate r a = by_front a.front a.queued a.ahead
    where
      by_front :
          (front : List Command)
          → r.queue ≡ front ++ flush_command k ∷ a.back
          → length front ≡ 0
          → is_acked k (writer_step digest fate r).acks ≡ true
      by_front [] q l =
          coe 1 0
            (i.
              is_acked k (writer_step-serve fate r (flush_command k) a.back a.at_it q i).acks
              ≡ true)
            (last_acked k r.acks)
      by_front (c ∷ front) q l = absurd (omega arith)

  -- A flush that stands in the queue of a recorder at work, before any shutdown, is answered as soon
  -- as the writer has had a round for each command before it and one for itself: with success, or,
  -- where one of the writes fails in any way, with its exception.
  pub run_writer-acked :
      (k n : ℕ) (fates : List Fate) (r : Recorder)
      → IsWaiting k n r
      → n < length fates
      → is_acked k (run_writer fates r).acks ≡ true
  unfolding run_writer
  run_writer-acked k n [] r a l = absurd (omega arith)
  run_writer-acked k zero (fate ∷ fates) r a l =
      is_acked-run_writer k fates (writer_step digest fate r) (first-acked k fate r a)
  run_writer-acked k (suc n) (fate ∷ fates) r a l = elim (step-acked k n fate r a) [
    | inl h ↦ is_acked-run_writer k fates (writer_step digest fate r) h
    | inr b ↦ run_writer-acked k n fates (writer_step digest fate r) b (omega arith)
  ]
