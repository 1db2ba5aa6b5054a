-- ===== src/Tools/Runtime/Prepare.antt =====
-- The lines of ToolRuntime.execute (agent-harness/src/agent_harness/tools/runtime.py) up to the
-- evaluation of the call, with _coerce_arguments.
use general_agent_design.Common.{Option, none, some, [], ◌∷◌}
use general_agent_design.Domain.Errors.{
  Result, ok, fail, ◌>>=◌, tool_authorization, tool_input_validation,
}
use general_agent_design.Domain.Json.{Value, dict, Members, no_member, member, Arguments}
use general_agent_design.Security.Models.{Principal, PermissionEvaluation}
use general_agent_design.Security.Engine.{evaluate}
use general_agent_design.Tools.Schema.{validate_value}
use general_agent_design.Tools.Runtime.State.{
  Tool, get, RawArguments, parsed, unparsed, RawCall, Env, sandbox_policy,
}
use general_agent_design.Tools.Runtime.Output.{as_members}

-- What a call is once it is read, checked and evaluated.
pub record Prepared (W : Type 0) : Type 0 where
  pub principal : Principal
  pub tool : Tool W
  pub arguments : Arguments
  pub evaluation : PermissionEvaluation

abbrev pub entries : Members → Arguments
entries no_member = []
entries (member k v ms) = (k, v) ∷ entries ms

abbrev read_arguments : Option Value → Result Arguments
read_arguments none = fail tool_input_validation "Tool arguments are not valid JSON"
read_arguments (some (dict ms)) = ok (entries ms)
read_arguments (some v) = fail tool_input_validation "Tool arguments must be a JSON object"

module _ {W : Type 0} (e : Env W) where
  -- _coerce_arguments
  unfoldable pub coerce_arguments : RawArguments → Result Arguments
  coerce_arguments (parsed arguments) = ok arguments
  coerce_arguments (unparsed raw) = read_arguments (e.loads raw)

  abbrev pub required : Option Principal → RawCall → Result Principal
  required none call = fail tool_authorization "Tool execution principal is required"
  required (some p) call = ok p

  -- The lines of execute up to the evaluation.
  unfoldable pub prepare : Option Principal → RawCall → Result (Prepared W)
  unfolding get
  prepare principal call = do
    p ← required principal call
    tool ← get call.name e.tools
    arguments ← coerce_arguments call.arguments
    _ ← validate_value e.python (dict (as_members arguments)) tool.input_schema "arguments"
    evaluation ← evaluate e.host e.rules p tool.definition arguments (sandbox_policy e p)
    ok (record { principal = p; tool = tool; arguments = arguments; evaluation = evaluation })
