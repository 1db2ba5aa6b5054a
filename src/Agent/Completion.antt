-- ===== src/Agent/Completion.antt =====
-- agent-harness/src/agent_harness/runtime/completion.py. The root agent's guard is its answer: the
-- message that asks for more work, if there is one.
use general_agent_design.Common.{
  ℕ, ◌+◌, String, Bool, true, false, Option, none, some, List, [], ◌∷◌, leb, if◌then◌else◌,
}
use general_agent_design.Security.Models.{given}

pub data Policy : Type 0 where
  text_final : Policy
  structured : ℕ → Policy

pub record CompletionDecision : Type 0 where
  pub should_complete : Bool
  pub repair_message : Option String

unfoldable pub terminal_tool_names : Policy → List String
terminal_tool_names text_final = []
terminal_tool_names (structured max_repairs) = "submit_result" ∷ []

abbrev pub repair_text : String
repair_text =
    "你的上一条回复没有调用 submit_result，因此不能结束子 Agent Turn。\n请立即调用 submit_result，字段必须包含 summary、evidence、unresolved_questions、confidence；不要再使用普通文本作为最终回复。"

-- on_text_response, with the repairs made so far; the second result counts them anew.
unfoldable pub on_text_response : Policy → Option String → ℕ → CompletionDecision × ℕ
on_text_response text_final guard repair_count = (
  (if given guard
      then record { should_complete = false; repair_message = guard }
      else record { should_complete = true; repair_message = none }),
  repair_count,
)
on_text_response (structured max_repairs) guard repair_count =
    if leb max_repairs repair_count
    then (record { should_complete = true; repair_message = none }, repair_count)
    else (record { should_complete = false; repair_message = some repair_text }, repair_count + 1)
