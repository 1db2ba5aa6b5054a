-- ===== src/Turns/Controller/Once.antt =====
-- The terminal items that TurnController (turns/controller.py) appends.
use general_agent_design.Common.{
  ◌≡◌, refl, ap, ◌∙◌, String, Bool, true, false, none, List, [], ◌∷◌, ◌++◌, select, select-append,
  append_assoc, arith,
}
use general_agent_design.Domain.Errors.{Exception, ok, err}
use general_agent_design.Agent.State.{RunState, RunStatus}
use general_agent_design.Turns.Controller.{
  idle, TurnItem, agent_message, terminal_item, Turn, Awaits, Finish, cancel, prepare, terminal_of,
  finalize, finish, all_well, finish_each,
}

abbrev pub is_terminal : TurnItem → Bool
is_terminal (terminal_item n s p) = true
is_terminal _ = false

abbrev pub terminals : List TurnItem → List TurnItem
terminals items = select is_terminal items

-- A turn at its end.
pub record IsOver (t : Turn) : Type 0 where
  pub over : t.finalized ≡ true
  pub resting : t.status ≡ idle
  pub no_turn : t.active_turn_id ≡ none

finish_each_over :
    (fs : List Finish) (r : RunState) (t : Turn) → t.finalized ≡ true → (finish_each fs r t).1 ≡ t
unfolding finish_each finish finalize
finish_each_over [] r t h = refl
finish_each_over (f ∷ fs) r t h =
    ap (λ (u : Turn). (finish_each fs (prepare f r) u).1) (finish_over f r t h)
    ∙ finish_each_over fs (prepare f r) t h
  where
    finish_over :
        (f : Finish) (r : RunState) (t : Turn) → t.finalized ≡ true → (finish all_well f r t).2 ≡ t
    finish_over f r t h = ground arith

finish-IsOver :
    (f : Finish) (r : RunState) (t : Turn)
    → t.finalized ≡ false
    → IsOver (finish all_well f r t).2
      × (terminals (finish all_well f r t).2.items ≡ terminals t.items ++ (terminal_of f r ∷ []))
unfolding finish finalize
finish-IsOver f r t h = ground (
  arith,
  select-append is_terminal t.items (
      agent_message (prepare f r).final_output (prepare f r).status (prepare f r).error
      ∷ terminal_of f r
      ∷ []),
)

-- However many of complete, fail, cancel, finalize_recovered and interrupt are called on a turn that is
-- not finalized, where the awaits and the writing of the summary end well, exactly one terminal item is
-- appended, that of the first call, and the turn's thread rests without an active turn.
pub terminals-finish_each :
    (f : Finish) (fs : List Finish) (r : RunState) (t : Turn)
    → t.finalized ≡ false
    → IsOver (finish_each (f ∷ fs) r t).1
      × (terminals (finish_each (f ∷ fs) r t).1.items ≡ terminals t.items ++ (terminal_of f r ∷ []))
unfolding finish_each
terminals-finish_each f fs r t h =
    let (over, one) = finish-IsOver f r t h in
    let same = finish_each_over fs (finish all_well f r t).1 (finish all_well f r t).2 over.over in
    (coe 1 0 (i. IsOver (same i)) over, ap (λ (u : Turn). terminals u.items) same ∙ one)

terminals-finish_unsaved :
    (f : Finish) (r : RunState) (t : Turn) (a : Awaits) (x : Exception)
    → t.finalized ≡ false
    → a.append ≡ ok tt
    → a.metadata ≡ err x
    → ((finish a f r t).2.finalized ≡ false)
      × (terminals (finish a f r t).2.items ≡ terminals t.items ++ (terminal_of f r ∷ []))
unfolding finish finalize
terminals-finish_unsaved f r t a x h p m = ground (
  arith,
  select-append is_terminal t.items (
      agent_message (prepare f r).final_output (prepare f r).status (prepare f r).error
      ∷ terminal_of f r
      ∷ []),
)

-- Where the metadata cannot be written, the terminal item is appended and the turn is not finalized, so
-- the next call appends a second terminal item.
pub terminals-finish_twice :
    (f g : Finish) (r : RunState) (t : Turn) (a : Awaits) (x : Exception)
    → t.finalized ≡ false
    → a.append ≡ ok tt
    → a.metadata ≡ err x
    → terminals (finish all_well g (prepare f r) (finish a f r t).2).2.items
      ≡ terminals t.items ++ (terminal_of f r ∷ terminal_of g (prepare f r) ∷ [])
terminals-finish_twice f g r t a x h p m =
    let (still, one) = terminals-finish_unsaved f r t a x h p m in
    let (over, two) = finish-IsOver g (prepare f r) (finish a f r t).2 still in
    two
    ∙ ap (λ ts. ts ++ (terminal_of g (prepare f r) ∷ [])) one
    ∙ append_assoc (terminals t.items) (terminal_of f r ∷ []) (terminal_of g (prepare f r) ∷ [])

-- Cancelling a turn that is finalized leaves the turn as it is, and yet the run's state becomes cancelled.
finish_late :
    (a : Awaits) (reason : String) (r : RunState) (t : Turn)
    → t.finalized ≡ true
    → ((finish a (cancel reason) r t).2 ≡ t)
      × ((finish a (cancel reason) r t).1.status ≡ RunStatus.cancelled)
unfolding finish finalize prepare
finish_late a reason r t h = ground arith
