-- ===== src/Examples/Tools.antt =====
-- A tool that reads a file, called with a path.
use general_agent_design.Common.{
  ℕ, suc, ◌≤◌, ◌≡◌, ◌≢◌, ◌↔◌, ◌⊎◌, refl, true, false, some, none, [], ◌∷◌,
}
use Prim.Native.String
use mathlib.Core.Bool.{decide}
use general_agent_design.Common.Dict.{lookup, insert}
use general_agent_design.Agent.Action.{◌>>=◌, pure, lift, modify}
use general_agent_design.Agent.State.{ToolResult}
use general_agent_design.Domain.Errors.{ok}
use general_agent_design.Domain.Json.{Value, text, dict, pos, no_member, member}
use general_agent_design.Domain.Numbers.{Floats}
use general_agent_design.Domain.Tools.{success, Capability-discrete}
use general_agent_design.Security.Rules.{matches, resolve_rule_decision}
use general_agent_design.Security.PathPolicy.{
  relative_to, reject_denied, within, resolve, requires_approval,
}
use general_agent_design.Security.Engine.{
  default_decision, evaluate_mcp_policy, missing, result, by_profile, target, evaluate_paths,
  matching_rules, by_rules, evaluate,
}
use general_agent_design.Security.Hooks.{run, run_hooks, resolve_hooks, after_hook}
use general_agent_design.Security.Approval.{authorize_or_approve}
use general_agent_design.Tools.Schema.{
  Facets, Schema, schema, no_items, property, no_property, Python, expected, check_enum,
  check_length, by_type, check_required, validate_value,
}
use general_agent_design.Tools.Schema.Conformity.{Conforms}
use general_agent_design.Tools.Schema.Agreement.{validate_value-Conforms}
use general_agent_design.Tools.Runtime.{
  Tool, get, RawCall, parsed, Env, Session, sandbox_policy, in_gate, in_world, note, format_output,
  take_text, bound_content, coerce_arguments, prepare, Prepared, reason_after, admit, announce,
  externalized, announce_end, run_tool, attempt, report, execute,
}
use general_agent_design.Tools.Runtime.Safety.{IsPrepared, IsAdmitted, execute_guarded}
use general_agent_design.Tools.Runtime.Answers.{count-execute}
use general_agent_design.Examples.Hosts.{host, principal, tool, at_path}
use general_agent_design.Examples.Approvals.{digest, stable_id, says_yes, gate}

abbrev floats : Floats
floats = record { to_float = λ n. some "0.0"; less = λ v w. false; equal = λ v w. false }

abbrev python : Python
python = record { floats = floats; show = λ v. "" }

abbrev anything : Facets
anything = record {
  type = none;
  enum = none;
  required = [];
  additional_properties = true;
  min_length = none;
  max_length = none;
  minimum = none;
  maximum = none;
}

abbrev short_text : Schema
short_text =
    schema (record anything { type = some "string"; max_length = some (pos 5) }) no_items
      no_property

abbrev path_schema : Schema
path_schema =
    schema
      (record anything {
        type = some "object";
        required = "path" ∷ [];
        additional_properties = false;
      })
      no_items (property "path" short_text no_property)

abbrev read_file : Tool ℕ
read_file = record {
  definition = tool;
  description = "Read a file";
  input_schema = path_schema;
  output_schema = none;
  executor = λ a w. (ok (text "hello"), suc w);
}

abbrev env : Env ℕ
env = record {
  host = host;
  digest = digest;
  python = python;
  loads = λ s. none;
  dumps = λ v. "";
  stable_id = stable_id;
  handler = says_yes;
  rules = [];
  tools = ("read_file", read_file) ∷ [];
  max_result_chars = 4;
  workspace_root = "work" ∷ [];
  sandbox_policy_factory = none;
  pre_hooks = λ n a p. [];
  post_hooks = λ n a v p. [];
  artifacts = none;
}

abbrev call : RawCall
call = record { id = "c1"; name = "read_file"; arguments = parsed (at_path "a.txt") }

abbrev start : Session ℕ
start = record { gate = gate; world = 0 }

abbrev shortened : ToolResult
shortened = record {
  tool_call_id = "c1";
  tool_name = "read_file";
  status = success;
  content = "hell\n[truncated]";
  error_code = none;
  error_message = none;
  metadata = ("output", text "hello") ∷ ("truncated", Value.bool true) ∷ [];
}

accepts :
    validate_value python (dict (member "path" (text "a.txt") no_member)) path_schema "arguments"
    ≡ ok tt
unfolding validate_value check_enum by_type check_length check_required expected
accepts = refl

refuses_long :
    validate_value python (dict (member "path" (text "long.txt") no_member)) path_schema "arguments"
    ≢ ok tt
unfolding validate_value check_enum by_type check_length check_required expected
refuses_long h = cc

reads :
    execute env (some principal) call start
    ≡ (ok shortened, (execute env (some principal) call start).1)
unfolding execute attempt admit run_tool report prepare get coerce_arguments validate_value
    check_enum by_type check_length check_required expected evaluate missing decide
    Capability-discrete evaluate_paths target resolve within reject_denied relative_to
    requires_approval by_rules matching_rules matches resolve_rule_decision by_profile
    evaluate_mcp_policy default_decision result lookup sandbox_policy in_gate in_world note announce
    externalized announce_end bound_content format_output take_text authorize_or_approve run
    run_hooks resolve_hooks after_hook reason_after ◌>>=◌ pure lift modify insert
reads = refl

runs : (execute env (some principal) call start).1.world ≡ 1
unfolding execute attempt admit run_tool report prepare get coerce_arguments validate_value
    check_enum by_type check_length check_required expected evaluate missing decide
    Capability-discrete evaluate_paths target resolve within reject_denied relative_to
    requires_approval by_rules matching_rules matches resolve_rule_decision by_profile
    evaluate_mcp_policy default_decision result lookup sandbox_policy in_gate in_world note announce
    externalized announce_end bound_content format_output take_text authorize_or_approve run
    run_hooks resolve_hooks after_hook reason_after ◌>>=◌ pure lift modify insert
runs = refl

validate_value-Conforms_example :
    (validate_value python (dict (member "path" (text "a.txt") no_member)) path_schema "arguments"
      ≡ ok tt)
    ↔ Conforms python (dict (member "path" (text "a.txt") no_member)) path_schema
validate_value-Conforms_example =
    validate_value-Conforms python (dict (member "path" (text "a.txt") no_member)) path_schema
      "arguments"

execute_guarded_example :
    ((execute env (some principal) call start).1.world ≡ 0)
    ⊎ ((p : Prepared ℕ) × IsPrepared env (some principal) call p × IsAdmitted env call p gate)
execute_guarded_example = execute_guarded env (some principal) call start

count-execute_example : String.count shortened.content ≤ 41
count-execute_example =
    count-execute env (some principal) call start (execute env (some principal) call start).1
      shortened refl reads refl
