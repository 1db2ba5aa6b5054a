-- ===== src/Tools/Runtime/Answers.antt =====
-- What ToolRuntime.execute (agent-harness/src/agent_harness/tools/runtime.py) answers with.
use Prim.Native.String
use general_agent_design.Common.{
  ℕ, ◌+◌, ◌≤◌, String, ◌≡◌, ◌≢◌, refl, sym, ap, ◌∙◌, ◌⊎◌, Bool, true, false, Option, some, none,
  arith, ltb, if◌then◌else◌, [], ◌∷◌,
}
use general_agent_design.Common.Dict.{Dict}
use text.Mathlib.TextLemmas.{length-append}
use general_agent_design.Agent.Action.{pure, raise, modify, >>=-ok, ◌>>=◌}
use general_agent_design.Agent.State.{ToolResult}
use general_agent_design.Domain.Errors.{
  Exception, raised, value_error, timed_out, other, cancelled, Result, ok, err,
}
use general_agent_design.Domain.Json.{Value}
use general_agent_design.Domain.Tools.{success, ToolDefinition}
use general_agent_design.Security.Models.{Principal, given}
use general_agent_design.Tools.Schema.{at}
use general_agent_design.Tools.Runtime.{
  RawCall, Env, ArtifactStore, Session, note, count-take_text, take_text, cut_note, uncut_note,
  bound_content, shorten_mcp, format_output, Prepared, success_result, run_tool, attempt, report,
  broken, error_result, cut, handled, execute,
}

-- A result of this call; one that is no success has an error code.
pub record IsAnswer (call : RawCall) (r : ToolResult) : Type 0 where
  pub call_id : r.tool_call_id ≡ call.id
  pub name : r.tool_name ≡ call.name
  pub explained : (r.status ≡ success) ⊎ (r.error_code ≢ none)

same_ok : {A S : Type 0} {a b : A} {s t : S} → ◌≡◌ {A = Result A × S} (ok a, s) (ok b, t) → b ≡ a
same_ok h = cc

-- A chain of two tests, by its three ends.
branches :
    {A B : Type 0} (p q : Bool) (f g h : A → B) (s : A) (b : B) {P : Type 0}
    → (if p then (if q then f else g) else h) s ≡ b
    → (f s ≡ b → P)
    → (g s ≡ b → P)
    → (p ≡ false → h s ≡ b → P)
    → P
branches true true f g h s b k x y z = x k
branches true false f g h s b k x y z = y k
branches false q f g h s b k x y z = z refl k

-- A text that was cut has no more characters than the limit and the note.
count-cut :
    (limit n : ℕ) (suffix content : String) (d : Dict Value) (c : String × Dict Value)
    → String.count suffix ≤ n
    → c ≡ cut limit suffix content d
    → String.count c.0 ≤ limit + n
count-cut limit n suffix content d c h q =
    coe 0 1 (i. String.count ((sym q i).0) ≤ limit + n)
      (omega (arith, count-take_text limit content, length-append (take_text limit content) suffix))

module _ {W : Type 0} (e : Env W) where
  -- A result of the try statement's body is made from an output by the limit on its length.
  run_tool-ok :
      (call : RawCall) (p : Prepared W) (s t : Session W) (r : ToolResult)
      → run_tool e call p s ≡ (ok r, t)
      → (output : Value) × (c : String × Dict Value) × (u v : Session W) × (bound_content e
            p.principal call p.tool.definition
            (format_output e output)
            (("output", output) ∷ [])
            u
          ≡ (ok c, v))
        × (r ≡ success_result call c)
  unfolding run_tool pure
  run_tool-ok call p s t r h =
      let (_, s1, _, h1) = >>=-ok _ _ s h in
      let (raw, s2, _, h2) = >>=-ok _ _ s1 h1 in
      let (_, s3, _, h3) = >>=-ok _ _ s2 h2 in
      let (output, s4, _, h4) = >>=-ok _ _ s3 h3 in
      let (_, s5, _, h5) = >>=-ok _ _ s4 h4 in
      let (c, s6, b, h6) = >>=-ok _ _ s5 h5 in (output, c, s5, s6, b, same_ok h6)

  attempt-ok :
      (principal : Option Principal) (call : RawCall) (s t : Session W) (r : ToolResult)
      → attempt e principal call s ≡ (ok r, t)
      → (p : Prepared W) × (u v : Session W) × (run_tool e call p u ≡ (ok r, v))
  unfolding attempt
  attempt-ok principal call s t r h =
      let (p, s1, _, h1) = >>=-ok _ _ s h in let (_, s2, _, h2) = >>=-ok _ _ s1 h1 in (p, s2, t, h2)

  -- What `handled` answers with.
  abbrev Answers : RawCall → Result ToolResult → Type 0
  Answers call a = (a ≡ err cancelled) ⊎ ((r : ToolResult) × (a ≡ ok r) × IsAnswer call r)

  broken-ok :
      (call : RawCall) (m : String) (s : Session W)
      → (broken e call m s).0
        ≡ ok (
            error_result call (at "Tool error [TOOL_EXECUTION_ERROR]: " m) "TOOL_EXECUTION_ERROR" m)
  unfolding note modify ◌>>=◌ pure
  broken-ok call m s = ground arith

  cut_or_stored :
      (principal : Principal) (call : RawCall) (server content : String) (d : Dict Value)
      (s t : Session W) (c : String × Dict Value) (o : Option (ArtifactStore W))
      → o ≡ none
      → shorten_mcp e principal call o server content d s ≡ (ok c, t)
      → String.count c.0 ≤ e.max_result_chars + 37
  unfolding shorten_mcp pure
  cut_or_stored principal call server content d s t c none n h =
      count-cut e.max_result_chars 37 uncut_note content d c (omega arith) (same_ok h)
  cut_or_stored principal call server content d s t c (some store) n h = absurd cc

  bound_content-le :
      (principal : Principal) (call : RawCall) (tool : ToolDefinition) (content : String)
      (d : Dict Value) (s t : Session W) (c : String × Dict Value)
      → e.artifacts ≡ none
      → bound_content e principal call tool content d s ≡ (ok c, t)
      → String.count c.0 ≤ e.max_result_chars + 37
  unfolding bound_content pure
  bound_content-le principal call tool content d s t c n h =
      branches (ltb e.max_result_chars (String.count content)) (given tool.mcp_server) _ _ _ s
        (ok c, t) h (λ k. cut_or_stored principal call _ content d s t c e.artifacts n k)
        (λ k. count-cut e.max_result_chars 37 cut_note content d c (omega arith) (same_ok k))
        (λ f k.
          coe 0 1 (i. String.count ((sym (same_ok k) i).0) ≤ e.max_result_chars + 37)
            (ground (arith, f)))

  report_failed :
      (call : RawCall) (x : Exception) (s : Session W) (r : ToolResult)
      → (report e call x s).0 ≡ ok r
      → r.status ≢ success
  unfolding report note modify ◌>>=◌ pure raise
  report_failed call timed_out s r h o = cc
  report_failed call (raised x) s r h o = cc
  report_failed call (value_error m) s r h o = let b = broken-ok call m s in cc
  report_failed call (other m) s r h o = let b = broken-ok call m s in cc
  report_failed call cancelled s r h o = cc

  count-handled :
      (principal : Option Principal) (call : RawCall) (s t : Session W) (r : ToolResult)
      (a : Result ToolResult × Session W)
      → e.artifacts ≡ none
      → attempt e principal call s ≡ a
      → handled e call a ≡ (ok r, t)
      → r.status ≡ success
      → String.count r.content ≤ e.max_result_chars + 37
  count-handled principal call s t r (ok q, u) n h k o =
      let (p, v, w, hr) = attempt-ok principal call s u q h in
      let (output, c, x, y, b, qc) = run_tool-ok call p v w q hr in
      let is_c : r ≡ success_result call c = same_ok k ∙ qc in
      coe 0 1 (i. String.count ((sym is_c i).content) ≤ e.max_result_chars + 37) (
        bound_content-le p.principal call p.tool.definition (format_output e output)
          (("output", output) ∷ []) x y c n b)
  count-handled principal call s t r (err x, u) n h k o =
      absurd (report_failed call x u r (ap (λ (z : Result ToolResult × Session W). z.0) k) o)

  -- The text of a success is at most 37 characters longer than max_result_chars, where no artifact
  -- store is configured.
  pub count-execute :
      (principal : Option Principal) (call : RawCall) (s t : Session W) (r : ToolResult)
      → e.artifacts ≡ none
      → execute e principal call s ≡ (ok r, t)
      → r.status ≡ success
      → String.count r.content ≤ e.max_result_chars + 37
  unfolding execute
  count-execute principal call s t r n h o =
      count-handled principal call s t r (attempt e principal call s) n refl h o
