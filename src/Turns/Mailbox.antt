-- ===== src/Turns/Mailbox.antt =====
-- agent-harness/src/agent_harness/turns/mailbox.py: TurnInputMailbox, its queue as a list.
use general_agent_design.Common.{
  ◌≡◌, refl, sym, ◌∙◌, ap, String, Bool, true, false, List, [], ◌∷◌, ◌++◌, append_assoc, append-nil,
}

pub record InputItem : Type 0 where
  pub text : String
  pub input_kind : String

abbrev pub Queue : Type 0
Queue = List InputItem

-- put
unfoldable pub put : InputItem → Queue → Queue
put i q = q ++ (i ∷ [])

-- drain: the items in order, and the queue after it.
unfoldable pub drain : Queue → List InputItem × Queue
drain [] = ([], [])
drain (i ∷ q) = let (is, rest) = drain q in (i ∷ is, rest)

unfoldable pub has_pending : Queue → Bool
has_pending [] = false
has_pending (i ∷ q) = true

abbrev pub put_all : List InputItem → Queue → Queue
put_all [] q = q
put_all (i ∷ is) q = put_all is (put i q)

drain_all : (q : Queue) → drain q ≡ (q, [])
unfolding drain
drain_all [] = refl
drain_all (i ∷ q) = ap (λ (r : List InputItem × Queue). (i ∷ r.0, r.1)) (drain_all q)

put_all-append : (is : List InputItem) (q : Queue) → put_all is q ≡ q ++ is
unfolding put
put_all-append [] q = sym (append-nil q)
put_all-append (i ∷ is) q = put_all-append is (q ++ (i ∷ [])) ∙ append_assoc q (i ∷ []) is

-- What is put between two drains is drained by the second, in order and once.
pub drain-put_all : (is : List InputItem) (q : Queue) → drain (put_all is (drain q).1) ≡ (is, [])
drain-put_all is q =
    ap (λ (r : List InputItem × Queue). drain (put_all is r.1)) (drain_all q)
    ∙ ap drain (put_all-append is [])
    ∙ drain_all is
