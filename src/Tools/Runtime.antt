-- ===== src/Tools/Runtime.antt =====
-- ToolRuntime.execute of agent-harness/src/agent_harness/tools/runtime.py. A call is prepared without
-- effects, admitted by hooks and approval, then run; exceptions become results, except a cancellation.
-- The times of a result and the details of an error are left out.
mod State
mod Output
mod Prepare
pub mod Safety
pub mod Answers
unfoldable pub use State.*
unfoldable pub use Output.*
unfoldable pub use Prepare.*
use Prim.Native.String
use general_agent_design.Common.{
  String, Bool, true, false, ◌&&◌, Option, none, some, [], ◌∷◌, ◌==◌, if◌then◌else◌,
}
use general_agent_design.Common.Dict.{Dict, lookup}
use general_agent_design.Agent.Action.{Action, pure, lift, modify, gets, raise, ◌>>=◌, ◌>>◌}
use general_agent_design.Agent.State.{ToolResult}
use general_agent_design.Domain.Errors.{
  HarnessError, to_run_error, Exception, raised, value_error, cancelled, timed_out, other, Result,
  ok, err, fail, tool_authorization, tool_input_validation,
}
use general_agent_design.Domain.Json.{
  Value, null, bool, int, float, text, array, dict, Members, no_member, member, Arguments,
}
use general_agent_design.Domain.Tools.{
  SideEffectType, filesystem, ToolStatus, success, error, timeout, ToolDefinition,
}
use general_agent_design.Security.Models.{
  PermissionDecision, allow, Principal, Reason, hook_denied, hook_asked, PermissionEvaluation,
  given,
}
use general_agent_design.Security.Engine.{evaluate}
use general_agent_design.Security.Hooks.{HookDecision, pass, ask_user, refuse, run, after_hook}
use general_agent_design.Security.Approval.{
  authorize_or_approve, permission_evaluated, hook_started, hook_completed, sandbox_started,
  command_started, command_completed, sandbox_completed, sandbox_failed, file_changed,
}
use general_agent_design.Tools.Schema.{Schema, Checked, at, validate_value}

-- The reason after the PreToolUse hooks.
unfoldable pub reason_after : HookDecision → PermissionDecision → Reason → Reason
reason_after refuse d r = hook_denied
reason_after ask_user allow r = hook_asked
reason_after _ d r = r

-- len(args.get("args", []))
abbrev sized : Option Value → Checked
sized none = ok tt
sized (some (array vs)) = ok tt
sized (some (dict ms)) = ok tt
sized (some (text s)) = ok tt
sized (some v) = err (other "object has no len()")

abbrev is_filesystem : SideEffectType → Bool
is_filesystem filesystem = true
is_filesystem _ = false

abbrev pub error_result : RawCall → String → String → String → ToolResult
error_result call content code message = record {
  tool_call_id = call.id;
  tool_name = call.name;
  status = error;
  content = content;
  error_code = some code;
  error_message = some message;
  metadata = [];
}

abbrev timeout_result : RawCall → ToolResult
timeout_result call = record {
  tool_call_id = call.id;
  tool_name = call.name;
  status = timeout;
  content = at "Tool timed out: " call.name;
  error_code = some "TOOL_TIMEOUT";
  error_message = some "Tool timed out";
  metadata = [];
}

abbrev pub success_result : RawCall → String × Dict Value → ToolResult
success_result call r = record {
  tool_call_id = call.id;
  tool_name = call.name;
  status = success;
  content = r.0;
  error_code = none;
  error_message = none;
  metadata = r.1;
}

module _ {W : Type 0} (e : Env W) where
  -- The lines from "permission.evaluated" to _authorize_or_approve.
  unfoldable pub admit : RawCall → Prepared W → Action (Session W) (Unit {0})
  unfolding note in_gate
  admit call p = do
    let hook = run (e.pre_hooks call.name p.arguments p.principal)
    let decision = after_hook hook p.evaluation.decision
    let reason = reason_after hook p.evaluation.decision p.evaluation.reason
    note (permission_evaluated call.id p.evaluation.decision p.evaluation.reason)
    note (hook_started "PreToolUse" call.id)
    note (hook_completed "PreToolUse" call.id)
    in_gate (
        authorize_or_approve e.host e.digest e.stable_id e.handler p.tool.definition call.id
          p.arguments p.principal decision reason)

  abbrev when : Bool → Action (Session W) (Unit {0}) → Action (Session W) (Unit {0})
  when true m = m
  when false m = pure tt

  -- What is emitted before a sandboxed executor is called; the number of its arguments is read.
  unfoldable pub announce : RawCall → Prepared W → Action (Session W) (Unit {0})
  unfolding note
  announce call p = when p.tool.definition.requires_sandbox (do
    note (sandbox_started call.id)
    lift (sized (lookup "args" p.arguments))
    note (command_started call.id))

  abbrev pub check_output : Option Schema → Value → Checked
  check_output none output = ok tt
  check_output (some s) output = validate_value e.python output s "output"

  -- An MCP result that is a dict, where there is a store for its binary parts.
  unfoldable pub externalized :
      RawCall → Prepared W → Option String → Value → Action (Session W) Value
  externalized call p (some server) (dict ms) =
      if given (some server) then externalize_in call p server ms e.artifacts else pure (dict ms)
    where
      externalize_in :
          RawCall
          → Prepared W
          → String
          → Members
          → Option (ArtifactStore W)
          → Action (Session W) Value
      externalize_in call p server ms none = pure (dict ms)
      externalize_in call p server ms (some store) =
          externalize_mcp_binary e store p.principal call server ms
  externalized call p server output = pure output

  unfoldable pub announce_end : RawCall → ToolDefinition → Action (Session W) (Unit {0})
  unfolding note
  announce_end call tool = do
    when tool.requires_sandbox
        (do note (command_completed call.id); note (sandbox_completed call.id))
    when (is_filesystem tool.side_effect) (note (file_changed call.id))
    note (hook_started "PostToolUse" call.id)
    note (hook_completed "PostToolUse" call.id)

  -- The lines after the approval, whose last ones limit the result's length. The decision of the
  -- PostToolUse hooks is not used.
  unfoldable pub run_tool : RawCall → Prepared W → Action (Session W) ToolResult
  unfolding announce externalized announce_end in_world
  run_tool call p = do
    announce call p
    raw ← in_world (p.tool.executor p.arguments)
    lift (check_output p.tool.output_schema raw)
    output ← externalized call p p.tool.definition.mcp_server raw
    announce_end call p.tool.definition
    content ←
        bound_content e p.principal call p.tool.definition (format_output e output)
          (("output", output) ∷ [])
    pure (success_result call content)

  -- The body of the try statement.
  unfoldable pub attempt : Option Principal → RawCall → Action (Session W) ToolResult
  unfolding admit run_tool
  attempt principal call = do p ← lift (prepare e principal call); admit call p; run_tool call p

  -- The except clauses: a text for an exception that is no HarnessError.
  abbrev pub broken : RawCall → String → Action (Session W) ToolResult
  broken call m = do
    when (call.name == "run_command") (note (sandbox_failed call.id))
    pure (error_result call (at "Tool error [TOOL_EXECUTION_ERROR]: " m) "TOOL_EXECUTION_ERROR" m)

  unfoldable pub report : RawCall → Exception → Action (Session W) ToolResult
  unfolding note to_run_error
  report call timed_out = do note (sandbox_failed call.id); pure (timeout_result call)
  report call (raised x) =
      let r = to_run_error x in
      pure (error_result call (at "Tool error [" (at r.code (at "]: " r.message))) r.code r.message)
  report call (value_error m) = broken call m
  report call (other m) = broken call m
  report call cancelled = raise cancelled

  abbrev pub handled : RawCall → Result ToolResult × Session W → Result ToolResult × Session W
  handled call (ok r, s) = (ok r, s)
  handled call (err x, s) = report call x s

  -- ToolRuntime.execute
  unfoldable pub execute : Option Principal → RawCall → Action (Session W) ToolResult
  unfolding attempt report
  execute principal call s = handled call (attempt principal call s)
