-- ===== src/Compaction/Replay.antt =====
-- What CompactionService.compact (agent-harness/src/agent_harness/compaction/service.py) keeps, and its
-- reapplication to a state that a checkpoint restores.
use general_agent_design.Common.{
  ℕ, zero, suc, ◌<◌, String, ◌≡◌, refl, sym, ap, ◌∙◌, Bool, true, false, not, ◌&&◌, ◌||◌, Option,
  some, none, List, [], ◌∷◌, ◌++◌, any, all, select, length, map, leb, take, drop, ◌==◌, arith,
  eq_refl, Bool-cases, inl, inr, if◌then◌else◌,
}
use general_agent_design.Common.Dict.{lookup}
use general_agent_design.Domain.Errors.{Result, ok, ◌>>=◌}
use general_agent_design.Domain.Payload.{texts_of-write_texts}
use general_agent_design.Security.Models.{given}
use general_agent_design.Security.Grants.Scope.{list_eq_refl}
use general_agent_design.Compaction.{
  CompactionRecord, CompactionRow, payload_of, row_of, fill_record, record_from, newest_row,
  read_row, apply_loaded, HistoryMessage, History, Service, is_protected, is_completed,
  user_indexes, boundary, source_of, is_nonempty, Split, split_at, split, precedes, latest,
  record_of, compacted, insert_record, text_or_empty, compact, reapply, apply_record, apply_latest,
}
use general_agent_design.Compaction.Boundary.{
  turns, opens, length-user_indexes, boundary-drop, take-drop, select-split_at,
}

record_from-payload_of : (r : CompactionRecord) → record_from (payload_of r) ≡ ok r
unfolding record_from payload_of fill_record lookup
record_from-payload_of r =
    ap (λ x. x >>= fill_record (payload_of r)) (texts_of-write_texts r.protected_message_ids)

-- No row of the thread is newer than the record.
abbrev pub oldest_of : CompactionRow → List CompactionRow → Bool
oldest_of r rows = all (λ q. not (q.thread_id == r.thread_id) || precedes q r) rows

newest_row-append :
    (r : CompactionRow) (rows : List CompactionRow)
    → oldest_of r rows ≡ true
    → newest_row r.thread_id (rows ++ r ∷ []) ≡ some r
unfolding newest_row
newest_row-append r [] h = ground (arith, eq_refl r.thread_id)
newest_row-append r (q ∷ rows) h = ground (arith, newest_row-append r rows)

-- What compact returns where it makes no record, and a chain of its guards.
abbrev unchanged :
    History → List CompactionRow → Result (Option CompactionRecord) × History × List CompactionRow
unchanged s rows = (ok none, s, rows)

guards :
    (p q n : Bool) (s t : History) (rows after : List CompactionRow) (r : CompactionRecord)
    (x : Result (Option CompactionRecord) × History × List CompactionRow)
    → (if p
        then unchanged s rows
        else if q
        then unchanged s rows
        else if n
        then unchanged s rows
        else x)
      ≡ (ok (some r), t, after)
    → (q ≡ false) × (x ≡ (ok (some r), t, after))
guards true q n s t rows after r x h = absurd cc
guards false true n s t rows after r x h = absurd cc
guards false false true s t rows after r x h = absurd cc
guards false false false s t rows after r x h = (refl, h)

module _ (digest : String → String) (c : Service) where
  insert_record-some :
      (q r : CompactionRecord) (parts : Split) (s t : History) (rows after : List CompactionRow)
      → insert_record digest c q parts s rows ≡ (ok (some r), t, after)
      → (q ≡ r) × (compacted digest c s q.summary_text parts ≡ t) × (rows ++ row_of q ∷ [] ≡ after)
  insert_record-some q r parts s t rows after h =
      elim (Bool-cases (any (λ p. q.compaction_id == p.compaction_id) rows)) [
        | inl y ↦ absurd (ground (arith, y))
        | inr n ↦ (ground (arith, n), ground (arith, n), ground (arith, n))
      ]

  abbrev record_at : String → String → History → CompactionRecord
  record_at new_id now s =
      record_of digest c s (text_or_empty s.turn_id) new_id now (split c s.messages)

  -- A compaction that makes a record, taken apart.
  compact-some :
      (new_id now : String) (s t : History) (r : CompactionRecord) (rows after : List CompactionRow)
      → compact digest c new_id now s rows ≡ (ok (some r), t, after)
      → (leb (length (user_indexes 0 s.messages)) c.retain_recent_turns ≡ false)
        × (record_at new_id now s ≡ r)
        × (compacted digest c s r.summary_text (split c s.messages) ≡ t)
        × (rows ++ row_of r ∷ [] ≡ after)
  unfolding compact
  compact-some new_id now s t r rows after h =
      let (some_left, made) =
        guards (not (is_completed s.status) || not (given s.turn_id))
          (leb (length (user_indexes 0 s.messages)) c.retain_recent_turns)
          (not (is_nonempty (split c s.messages).compactable)) s t rows after r
          (insert_record digest c (record_at new_id now s) (split c s.messages) s rows) h in
      let (is_r, is_t, is_after) =
        insert_record-some (record_at new_id now s) r (split c s.messages) s t rows after made in
      (
        some_left,
        is_r,
        ap (λ (q : CompactionRecord). compacted digest c s q.summary_text (split c s.messages))
              (sym is_r)
            ∙ is_t,
        ap (λ (q : CompactionRecord). rows ++ row_of q ∷ []) (sym is_r) ∙ is_after,
      )

  -- What a compaction that makes a record does to a history: what it keeps as it is begins where a
  -- turn is opened and has the turns to retain; of all that stands before, it keeps the messages
  -- with tool calls and the tools' results, in order, and nothing else.
  pub record IsCompacted (s t : History) : Type 0 where
    pub old : List HistoryMessage
    pub recent : List HistoryMessage
    pub before : s.messages ≡ old ++ recent
    pub after : t.messages ≡ select is_protected old ++ recent
    pub opened : opens recent ≡ true
    pub kept : turns recent ≡ c.retain_recent_turns
    pub same_protected : select is_protected t.messages ≡ select is_protected s.messages

  turns-left :
      (ms : List HistoryMessage)
      → leb (length (user_indexes 0 ms)) c.retain_recent_turns ≡ false
      → c.retain_recent_turns < turns ms
  turns-left ms h = ground (arith, length-user_indexes 0 ms)

  cut_at :
      (n : ℕ) (ms : List HistoryMessage)
      → n ≡ c.retain_recent_turns
      → 0 < n
      → n < turns ms
      → (turns (drop (boundary c.retain_recent_turns (user_indexes 0 ms)) ms)
          ≡ c.retain_recent_turns)
        × (opens (drop (boundary c.retain_recent_turns (user_indexes 0 ms)) ms) ≡ true)
  cut_at zero ms e p l = absurd (omega arith)
  cut_at (suc r) ms e p l =
      coe 0 1
        (i.
          (turns (drop (boundary (e i) (user_indexes 0 ms)) ms) ≡ e i)
          × (opens (drop (boundary (e i) (user_indexes 0 ms)) ms) ≡ true))
        (boundary-drop r ms l)

  -- A compaction that makes a record, with at least one turn to retain, keeps the last turns, as many
  -- as are to be retained, from the message that opens the first of them on; of the messages before
  -- it keeps those with tool calls and the tools' results, in order, and drops every other.
  pub compact-IsCompacted :
      (new_id now : String) (s t : History) (r : CompactionRecord) (rows after : List CompactionRow)
      → 0 < c.retain_recent_turns
      → compact digest c new_id now s rows ≡ (ok (some r), t, after)
      → IsCompacted s t
  unfolding split_at
  compact-IsCompacted new_id now s t r rows after p h =
      let (left, is_r, is_t, is_after) = compact-some new_id now s t r rows after h in
      let n : ℕ = boundary c.retain_recent_turns (user_indexes 0 s.messages) in
      let cut : (turns (drop n s.messages) ≡ c.retain_recent_turns)
          × (opens (drop n s.messages) ≡ true) =
        cut_at c.retain_recent_turns s.messages refl p (turns-left s.messages left) in
      coe 0 1 (i. IsCompacted s (is_t i)) (record {
        old = take n s.messages;
        recent = drop n s.messages;
        before = sym (take-drop n s.messages);
        after = refl;
        opened = cut.1;
        kept = cut.0;
        same_protected = select-split_at n s.messages;
      })

  reapply_same :
      (r : CompactionRecord) (parts : Split) (u : History)
      → digest (source_of parts.compactable) ≡ r.source_hash
      → map (λ m. m.message_id) parts.protected ≡ r.protected_message_ids
      → reapply digest c r parts u ≡ (ok (some r), compacted digest c u r.summary_text parts)
  unfolding reapply
  reapply_same r parts u e f =
      ground (arith, e, f, eq_refl r.source_hash, list_eq_refl r.protected_message_ids)

  apply_record-some :
      (r : CompactionRecord) (u : History)
      → digest r.summary_text ≡ r.summary_hash
      → (not (u.session_summary == "") && digest u.session_summary == r.summary_hash) ≡ false
      → leb (length (user_indexes 0 u.messages)) c.retain_recent_turns ≡ false
      → apply_record digest c (some r) u ≡ reapply digest c r (split c u.messages) u
  apply_record-some r u e f g = ground (arith, e, f, g, eq_refl r.summary_hash)

  -- The record of a compaction applies to any state of the run whose messages are those before the
  -- compaction, as a checkpoint restores them: the state then has the messages and the summary of
  -- the compacted one. The record must be the newest of its run, and the summary of the state not
  -- yet the one of the record.
  pub apply_latest-compact :
      (new_id now : String) (s t u : History) (r : CompactionRecord)
      (rows after : List CompactionRow)
      → compact digest c new_id now s rows ≡ (ok (some r), t, after)
      → oldest_of (row_of r) rows ≡ true
      → u.run_id ≡ s.run_id
      → u.messages ≡ s.messages
      → (not (u.session_summary == "") && digest u.session_summary == r.summary_hash) ≡ false
      → apply_latest digest c u after
        ≡ (ok (some r), record u { session_summary = t.session_summary; messages = t.messages })
  unfolding apply_latest latest record_of
  apply_latest-compact new_id now s t u r rows after h o ei em f =
      let (left, is_r, is_t, is_after) = compact-some new_id now s t r rows after h in
      let found : latest u.run_id after ≡ ok (some r) =
        ap (λ i. read_row (newest_row i after))
          (ei ∙ ap (λ (q : CompactionRecord). q.thread_id) is_r)
        ∙ ap (λ (a : List CompactionRow). read_row (newest_row r.thread_id a)) (sym is_after)
        ∙ ap read_row (newest_row-append (row_of r) rows o)
        ∙ ap (λ x. x >>= λ q. ok (some q)) (record_from-payload_of r) in
      let hashed : digest r.summary_text ≡ r.summary_hash =
        coe 0 1 (i. digest (is_r i).summary_text ≡ (is_r i).summary_hash) refl in
      let source : digest (source_of (split c u.messages).compactable) ≡ r.source_hash =
        coe 0 1 (i. digest (source_of (split c (sym em i)).compactable) ≡ (is_r i).source_hash)
          refl in
      let ids : map (λ m. m.message_id) (split c u.messages).protected ≡ r.protected_message_ids =
        coe 0 1
          (i.
            map (λ m. m.message_id) (split c (sym em i)).protected ≡ (is_r i).protected_message_ids)
          refl in
      let more : leb (length (user_indexes 0 u.messages)) c.retain_recent_turns ≡ false =
        coe 0 1 (i. leb (length (user_indexes 0 (sym em i))) c.retain_recent_turns ≡ false) left in
      ap (λ q. apply_loaded digest c q u) found
      ∙ apply_record-some r u hashed f more
      ∙ reapply_same r (split c u.messages) u source ids
      ∙ ap
          (λ (ms : List HistoryMessage).
            (ok (some r), compacted digest c u r.summary_text (split c ms)))
          em
      ∙ ap
          (λ (x : History).
            (ok (some r), record u { session_summary = x.session_summary; messages = x.messages }))
          is_t
