-- ===== src/Checkpoints/Continuity.antt =====
-- CheckpointManager.save and resume_sequence (agent-harness/src/agent_harness/checkpoints/manager.py)
-- over the store, and the recovery from what they leave.
use general_agent_design.Common.{
  ℕ, suc, String, ◌≡◌, ◌≢◌, refl, sym, ap, ◌∙◌, ◌⊎◌, inl, inr, true, false, Option, some, none,
  List, [], ◌∷◌, ◌++◌, any, arith, eq_refl, Option-cases, if◌then◌else◌, ◌↔◌, eqb, ==-eq-false,
}
use general_agent_design.Domain.Errors.{Result, ok, err, ◌>>=◌}
use general_agent_design.Checkpoints.Envelope.{
  checkpoint_from_dict, checkpoint_from_dict-to_jsonable,
}
use general_agent_design.Agent.State.{
  ResumePoint, DurableTurnStatus, tool_in_flight, model_in_flight,
}
use general_agent_design.Checkpoints.Store.{
  CheckpointEnvelope, CheckpointRow, CheckpointStore, conflicts, row_of, insert_events, newest,
  last_row, with_hash, verify, verified, load, save as save_in, latest, chosen,
}
use general_agent_design.Security.Models.{given}
use general_agent_design.Checkpoints.Manager.{
  or_empty, CheckpointManager, Saved, envelope, save, resume_sequence, resumed,
}
use general_agent_design.Checkpoints.Latest.{
  bounded, is_numbered, consistent, IsCurrent, unused, conflicts-any, newest-append, bounded-append,
  consistent-append, newest-none, newest-bounded, newest-consistent,
}
use general_agent_design.Checkpoints.Recovery.{ToolRecoveryPolicy, retry_safe, retry, plan_at, plan}

module _ (digest : CheckpointEnvelope → String) (config : String → String → String) where
  -- What a save that succeeds leaves: the envelope, hashed, is the newest of its turn.
  pub record IsLatest (turn_id : String) (m : CheckpointManager) (c : CheckpointEnvelope)
      (r : Result CheckpointEnvelope × CheckpointManager × CheckpointStore) : Type 0 where
    pub result : r.0 ≡ ok (with_hash digest c)
    pub loaded : latest digest m.thread_id (some turn_id) r.2 ≡ ok (some (with_hash digest c))
    pub current : IsCurrent turn_id r.1 r.2

  verify-with_hash :
      (c : CheckpointEnvelope)
      → digest (record c { payload_hash = "" }) ≢ ""
      → verify digest (with_hash digest c) ≡ true
  unfolding verify with_hash
  verify-with_hash c n =
      ground (arith, ==-eq-false _ _ n, eq_refl (digest (record c { payload_hash = "" })))

  load-row_of :
      (c : CheckpointEnvelope)
      → eqb c.schema_version 1 ≡ true
      → digest (record c { payload_hash = "" }) ≢ ""
      → load digest (some (row_of (with_hash digest c))) ≡ ok (some (with_hash digest c))
  unfolding with_hash
  load-row_of c v n =
      ap (λ r. r >>= verified digest) (checkpoint_from_dict-to_jsonable (with_hash digest c) v)
      ∙ ground (arith, verify-with_hash c n)

  abbrev grown : CheckpointEnvelope → CheckpointStore → CheckpointStore
  grown c s = record s { checkpoints = s.checkpoints ++ row_of (with_hash digest c) ∷ [] }

  save_in-ok :
      (c : CheckpointEnvelope) (s : CheckpointStore)
      → any (conflicts (row_of (with_hash digest c))) s.checkpoints ≡ false
      → save_in digest c [] s ≡ (ok (with_hash digest c), grown c s)
  unfolding save_in insert_events
  save_in-ok c s h = rw h

  latest-grown :
      (c : CheckpointEnvelope) (n : ℕ) (s : CheckpointStore)
      → c.turn_id ≢ ""
      → eqb c.schema_version 1 ≡ true
      → digest (record c { payload_hash = "" }) ≢ ""
      → c.checkpoint_sequence ≡ suc n
      → bounded c.thread_id c.turn_id n s.checkpoints ≡ true
      → latest digest c.thread_id (some c.turn_id) (grown c s) ≡ ok (some (with_hash digest c))
  unfolding latest with_hash
  latest-grown c n s t v d e b =
      ap
        (λ b. load digest (
          if b
          then last_row c.thread_id (grown c s).checkpoints
          else newest c.thread_id c.turn_id (grown c s).checkpoints))
        (==-eq-false c.turn_id "" t)
      ∙ ap (λ o. load digest o) (newest-append (row_of (with_hash digest c)) n s.checkpoints e b)
      ∙ load-row_of c v d

  module _ (turn_id : String) (m : CheckpointManager) (s : CheckpointStore) (state : Saved)
      (point : ResumePoint) (status : DurableTurnStatus) (pending : List String)
      (new_id now : String) where
    abbrev made : CheckpointEnvelope
    made = envelope digest config m (suc m.sequence) state point status pending new_id now

    -- A save for a turn that the manager is current for succeeds if the new identifier is unused:
    -- the envelope has the next sequence number and the state of the call, `latest` of the turn
    -- then returns it, and the manager stays current. The digest is never empty.
    pub save-IsLatest :
        state.turn_id ≡ some turn_id
        → turn_id ≢ ""
        → ((c : CheckpointEnvelope) → digest c ≢ "")
        → unused new_id s.checkpoints ≡ true
        → IsCurrent turn_id m s
        → IsLatest turn_id m
            (envelope digest config m (suc m.sequence) state point status pending new_id now)
            (save digest config state point status pending new_id now (m, s))
    unfolding save envelope with_hash
    save-IsLatest t n d u c =
        let row : CheckpointRow = row_of (with_hash digest made) in
        let is_turn : made.turn_id ≡ turn_id = ap or_empty t in
        let b : bounded m.thread_id made.turn_id m.sequence s.checkpoints ≡ true =
          coe 0 1 (i. bounded m.thread_id (sym is_turn i) m.sequence s.checkpoints ≡ true)
            c.ahead in
        let free : any (conflicts row) s.checkpoints ≡ false =
          conflicts-any row m.sequence s.checkpoints refl u b in
        let numbered : is_numbered row.checkpoint_sequence (checkpoint_from_dict row.payload)
            ≡ true =
          ap (is_numbered row.checkpoint_sequence)
            (checkpoint_from_dict-to_jsonable (with_hash digest made) refl)
          ∙ ground (arith) in
        let named : given state.turn_id ≡ true = ground (arith, t, ==-eq-false turn_id "" n) in
        let saved : save digest config state point status pending new_id now (m, s)
            ≡ (ok (with_hash digest made), record m { sequence = suc m.sequence }, grown made s) =
          rw (named, save_in-ok made s free) in
        coe 0 1 (i. IsLatest turn_id m made (sym saved i)) (record {
          result = refl;
          loaded =
              coe 0 1
                (i.
                  latest digest m.thread_id (some (is_turn i)) (grown made s)
                  ≡ ok (some (with_hash digest made)))
                (latest-grown made m.sequence s (λ e. n (sym is_turn ∙ e)) refl
                  (d (record made { payload_hash = "" })) refl b);
          current = record {
            ahead = bounded-append row m.sequence s.checkpoints m.thread_id turn_id refl c.ahead;
            agreeing = consistent-append row s.checkpoints numbered c.agreeing;
          };
        })

  resumed-none :
      (turn_id : String) (m k : CheckpointManager) (s : CheckpointStore)
      → consistent s.checkpoints ≡ true
      → newest m.thread_id turn_id s.checkpoints ≡ none
      → resumed digest config (load digest none) m ≡ (ok tt, k)
      → IsCurrent turn_id k s
  resumed-none turn_id m k s c e h =
      let is_k : record m { sequence = 0 } ≡ k = cc in
      coe 0 1 (i. IsCurrent turn_id (is_k i) s)
        (record { ahead = newest-none m.thread_id turn_id 0 s.checkpoints e; agreeing = c })

  loaded_by :
      (n : ℕ) (r : Result CheckpointEnvelope) (m k : CheckpointManager)
      → is_numbered n r ≡ true
      → resumed digest config (r >>= verified digest) m ≡ (ok tt, k)
      → record m { sequence = n } ≡ k
  loaded_by n (ok c) m k l h = ground (arith, l, h)
  loaded_by n (err x) m k l h = absurd (ground (arith, h))

  resumed-some :
      (turn_id : String) (m k : CheckpointManager) (s : CheckpointStore) (q : CheckpointRow)
      → consistent s.checkpoints ≡ true
      → newest m.thread_id turn_id s.checkpoints ≡ some q
      → resumed digest config (load digest (some q)) m ≡ (ok tt, k)
      → IsCurrent turn_id k s
  resumed-some turn_id m k s q c e h =
      let n = newest-consistent m.thread_id turn_id s.checkpoints q c e in
      let is_k : record m { sequence = q.checkpoint_sequence } ≡ k =
        loaded_by q.checkpoint_sequence (checkpoint_from_dict q.payload) m k n h in
      coe 0 1 (i. IsCurrent turn_id (is_k i) s)
        (record { ahead = newest-bounded m.thread_id turn_id s.checkpoints q e; agreeing = c })

  -- After resume_sequence of a turn the manager is current for it.
  resume_sequence-IsCurrent :
      (turn_id : String) (m k : CheckpointManager) (s : CheckpointStore)
      → turn_id ≢ ""
      → consistent s.checkpoints ≡ true
      → resume_sequence digest config turn_id (m, s) ≡ (ok tt, k)
      → IsCurrent turn_id k s
  unfolding resume_sequence latest
  resume_sequence-IsCurrent turn_id m k s n c h =
      let chose : chosen m.thread_id (some turn_id) s.checkpoints
          ≡ newest m.thread_id turn_id s.checkpoints =
        ground (arith, ==-eq-false turn_id "" n) in
      elim (Option-cases (newest m.thread_id turn_id s.checkpoints)) [
        | inl e ↦
            resumed-none turn_id m k s c e
              (sym (ap (λ o. resumed digest config (load digest o) m) (chose ∙ e)) ∙ h)
        | inr (q, e) ↦
            resumed-some turn_id m k s q c e
              (sym (ap (λ o. resumed digest config (load digest o) m) (chose ∙ e)) ∙ h)
      ]

plan_at-retry :
    (point : ResumePoint) (c : CheckpointEnvelope) (policy : Option ToolRecoveryPolicy)
    → ((plan_at point c policy).disposition ≡ retry)
      ↔ ((point ≡ model_in_flight) ⊎ ((point ≡ tool_in_flight) × (policy ≡ some retry_safe)))
unfolding plan_at
plan_at-retry model_in_flight c policy = (λ h. inl refl, λ h. refl)
plan_at-retry tool_in_flight c (some retry_safe) = (λ h. inr (refl, refl), λ h. refl)
plan_at-retry tool_in_flight c policy =
    (λ h. absurd cc, λ h. elim h [ inl e ↦ absurd cc | inr (e, p) ↦ absurd cc ])
plan_at-retry point c policy =
    (λ h. absurd cc, λ h. elim h [ inl e ↦ absurd cc | inr (e, p) ↦ absurd cc ])

-- Recovery repeats an action in two cases only: a model call whose response was not committed, and a
-- tool that was running and whose policy says that a retry is safe.
pub plan-retry :
    (c : CheckpointEnvelope) (policy : Option ToolRecoveryPolicy)
    → ((plan c policy).disposition ≡ retry) ↔ (
        (c.resume_point ≡ model_in_flight)
        ⊎ ((c.resume_point ≡ tool_in_flight) × (policy ≡ some retry_safe)))
unfolding plan
plan-retry c policy = plan_at-retry c.resume_point c policy

-- After a save of a manager that is current for its turn, the newest checkpoint of the turn is one of
-- the point, the status and the state that were saved, and the plan for it without a tool's policy, as
-- AgentSession recovers a turn, repeats an action exactly where that point is a model call in flight: a
-- tool that was running is never called again.
pub plan-save :
    (digest : CheckpointEnvelope → String) (config : String → String → String) (turn_id : String)
    (m : CheckpointManager) (s : CheckpointStore) (state : Saved) (point : ResumePoint)
    (status : DurableTurnStatus) (pending : List String) (new_id now : String)
    → state.turn_id ≡ some turn_id
    → turn_id ≢ ""
    → ((c : CheckpointEnvelope) → digest c ≢ "")
    → unused new_id s.checkpoints ≡ true
    → IsCurrent turn_id m s
    → (c : CheckpointEnvelope) × (latest digest m.thread_id
          (some turn_id)
          (save digest config state point status pending new_id now (m, s)).2
        ≡ ok (some c))
      × (c.resume_point ≡ point)
      × (c.turn_status ≡ status)
      × (c.serialized_state ≡ state.serialized)
      × (((plan c none).disposition ≡ retry) ↔ (point ≡ model_in_flight))
unfolding plan with_hash envelope
plan-save digest config turn_id m s state point status pending new_id now t n d u c =
    let kept =
      save-IsLatest digest config turn_id m s state point status pending new_id now t n d u c in
    let (there_is, only) =
      plan_at-retry point
        (with_hash digest
          (envelope digest config m (suc m.sequence) state point status pending new_id now))
        none in
    (
      with_hash digest
          (envelope digest config m (suc m.sequence) state point status pending new_id now),
      kept.loaded,
      refl,
      refl,
      refl,
      (λ h. elim (there_is h) [ inl e ↦ e | inr (e, p) ↦ absurd cc ], λ e. only (inl e)),
    )
