-- ===== src/Skills/Execution/Scope.antt =====
-- The tools that the executions of a registry leave to an agent in a turn
-- (SkillExecutionRegistry of agent-harness/src/agent_harness/skills/execution.py).
use general_agent_design.Common.{
  String, ◌≡◌, refl, sym, ap, ◌∙◌, Bool, true, false, not, ◌&&◌, ◌||◌, List, [], ◌∷◌, ◌++◌, map,
  ◌==◌, arith, eq_iff, contains, select, all, if◌then◌else◌,
}
use general_agent_design.Skills.Selections.{
  contains-select, select_cong, select-select, select_all, all-append,
}
use general_agent_design.Skills.Models.{SkillActivationSnapshot}
use general_agent_design.Skills.Execution.{
  SkillExecution, SkillExecutionRegistry, is_empty, started, start, narrows, intersection, narrow,
  effective_tools_for, complete, finish_turn,
}

-- An execution leaves a tool to an agent in a turn.
abbrev permits : String → String → String → SkillExecution → Bool
permits t a n e = not (narrows t a e) || contains n e.effective_tools

contains-narrow :
    (t a n : String) (es : List SkillExecution) (xs : List String)
    → contains n (narrow t a es xs) ≡ (contains n xs && all (permits t a n) es)
unfolding narrow
contains-narrow t a n [] xs = ground arith
contains-narrow t a n (e ∷ es) xs = ground (
  arith,
  contains-narrow t a n es xs,
  contains-narrow t a n es (intersection e.effective_tools xs),
  contains-select (λ m. contains m e.effective_tools) n xs,
)

permits-complete :
    (t u a n : String) (e : SkillExecution)
    → permits t a n (complete u e) ≡ (u == t || permits t a n e)
permits-complete t u a n e =
    ground (arith, eq_iff u t, eq_iff e.root_turn_id u, eq_iff e.root_turn_id t)

all-finish :
    (t u a n : String) (es : List SkillExecution)
    → all (permits t a n) (map (complete u) es) ≡ (u == t || all (permits t a n) es)
all-finish t u a n [] = ground arith
all-finish t u a n (e ∷ es) = ground (arith, permits-complete t u a n e, all-finish t u a n es)

-- What the executions leave is what is left of the base tools, in their order, by each of them.
effective_tools_for_lem :
    (t a : String) (base : List String) (s : SkillExecutionRegistry)
    → effective_tools_for t a base s
      ≡ select (λ n. contains n base && all (permits t a n) s.executions) base
unfolding effective_tools_for
effective_tools_for_lem t a base s = select_cong (λ n. contains-narrow t a n s.executions base) base

abbrev narrowed : Bool → List String → List String → List String
narrowed b tools xs = if b then intersection tools xs else xs

narrowed-select :
    (b : Bool) (tools : List String) (p : String → Bool) (xs : List String)
    → narrowed b tools (select p xs) ≡ select (λ n. p n && (not b || contains n tools)) xs
narrowed-select true tools p xs = select-select p (λ n. contains n tools) xs
narrowed-select false tools p xs = select_cong (λ n. ground arith) xs

-- An execution that starts leaves an agent in a turn exactly those of its effective tools, in their
-- order, that the skill allows, if the execution is inline, for that turn and agent, and names any
-- tool; it leaves all of them otherwise.
pub effective_tools_for-start :
    (i source u b : String) (act : SkillActivationSnapshot) (t a : String) (base : List String)
    (s : SkillExecutionRegistry)
    → effective_tools_for t a base (start i act source u b s).1 ≡ (
        if act.context_mode == "inline" && (u == t && (b == a && not (is_empty act.allowed_tools)))
        then select (λ n. contains n act.allowed_tools) (effective_tools_for t a base s)
        else effective_tools_for t a base s)
unfolding start
effective_tools_for-start i source u b act t a base s =
    let e : SkillExecution = started i act source u b in
    effective_tools_for_lem t a base (record { executions = s.executions ++ (e ∷ []) })
    ∙ select_cong (λ n. ground (arith, all-append (permits t a n) s.executions (e ∷ []))) base
    ∙ sym (
        narrowed-select (narrows t a e) e.effective_tools
          (λ n. contains n base && all (permits t a n) s.executions) base)
    ∙ ap (narrowed (narrows t a e) e.effective_tools) (sym (effective_tools_for_lem t a base s))

base_if :
    (b : Bool) (p : String → Bool) (xs : List String)
    → select (λ n. contains n xs && (b || p n)) xs
      ≡ (if b then xs else select (λ n. contains n xs && p n) xs)
base_if true p xs = select_cong (λ n. ground arith) xs ∙ select_all xs xs (λ n h. h)
base_if false p xs = refl

-- Once a turn is finished no execution narrows the tools of any agent in it, and in any other turn
-- every agent has the effective tools that it had.
effective_tools_for-finish_turn :
    (u t a : String) (base : List String) (s : SkillExecutionRegistry)
    → effective_tools_for t a base (finish_turn u s)
      ≡ (if u == t then base else effective_tools_for t a base s)
unfolding finish_turn
effective_tools_for-finish_turn u t a base s =
    let p : String → Bool = λ n. all (permits t a n) s.executions in
    effective_tools_for_lem t a base (record { executions = map (complete u) s.executions })
    ∙ select_cong (λ n. ap (λ b. contains n base && b) (all-finish t u a n s.executions)) base
    ∙ base_if (u == t) p base
    ∙ ap (λ xs. if u == t then base else xs) (sym (effective_tools_for_lem t a base s))
