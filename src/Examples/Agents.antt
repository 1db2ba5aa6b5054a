-- ===== src/Examples/Agents.antt =====
-- A run that calls a tool and then answers, with a limit of two iterations.
use general_agent_design.Common.{
  String, ◌≡◌, refl, false, Option, none, some, List, [], ◌∷◌, eqb, arith, if◌then◌else◌,
}
use general_agent_design.Domain.Errors.{ok}
use general_agent_design.Domain.Tools.{success}
use general_agent_design.Runtime.Budgets.{
  check_wall_time, check_iteration, check_model_calls, check_tool_calls,
}
use general_agent_design.Agent.State.{
  assistant, ToolCall, no_usage, ModelResponse, created, add_usage,
}
use general_agent_design.Agent.Completion.{text_final, terminal_tool_names, on_text_response}
use general_agent_design.Agent.Loop.{
  Env, Loop, Ending, returned, run, iterate, iteration, begin, stop_if_requested, drain_mailbox,
  obtain_response, call_model, respond, respond_with, call_tools, call_tool, answer, checkpoint,
  complete_run, decide_text, handle, on_text,
}
use general_agent_design.Agent.Action.{◌>>=◌, gets, lift, modify, pure, raise}
use general_agent_design.Agent.Loop.Termination.{Advances, run_total, run-Advances}
use general_agent_design.Agent.Loop.Endings.{IsEnded, run-IsEnded}

abbrev call : ToolCall
call = record { id = "c1"; name = "read_file"; arguments = [] }

abbrev answer_of : String → List ToolCall → ModelResponse
answer_of content calls = record {
  assistant_message = record {
    role = assistant;
    content = content;
    tool_calls = calls;
    tool_call_id = none;
    tool_name = none;
  };
  tool_calls = calls;
  usage = no_usage;
}

abbrev env : Env
env = record {
  limits = record {
    max_iterations = 2;
    max_model_calls = 2;
    max_tool_calls = 1;
    max_wall_time_seconds = 60;
  };
  policy = text_final;
  terminal_tools = [];
  elapsed = λ r. 0;
  cancellation_requested = λ r. false;
  build = λ r. ok tt;
  complete =
      λ r. ok (if eqb r.model_call_count 1 then answer_of "" (call ∷ []) else answer_of "done" []);
  execute = λ c r. ok (record {
    tool_call_id = c.id;
    tool_name = c.name;
    status = success;
    content = "text";
    error_code = none;
    error_message = none;
    metadata = [];
  });
  mailbox = λ r. [];
  final_guard = λ r. none;
  strip = λ s. s;
}

abbrev start : Loop
start = record {
  run = record {
    status = created;
    messages = [];
    iteration = 0;
    model_call_count = 0;
    tool_call_count = 0;
    usage_total = no_usage;
    final_output = none;
    error = none;
  };
  resume_point = none;
  repair_count = 0;
  checkpoints = [];
}

abbrev finished : Option (Ending × Loop) → Loop
finished none = start
finished (some r) = r.1

runs : run env 4 start ≡ some (returned, finished (run env 4 start))
unfolding run iterate iteration ◌>>=◌ begin stop_if_requested check_wall_time check_iteration
    drain_mailbox obtain_response call_model check_model_calls respond respond_with call_tools
    call_tool check_tool_calls terminal_tool_names gets lift modify pure raise on_text_response
    answer checkpoint complete_run decide_text handle on_text add_usage
runs = refl

run_total_example : (r : Ending × Loop) × (run env 4 start ≡ some r)
run_total_example = run_total env 4 start (omega arith)

run-Advances_example : Advances env.limits start (finished (run env 4 start))
run-Advances_example = run-Advances env 4 start (finished (run env 4 start)) returned runs

run-IsEnded_example : IsEnded returned (finished (run env 4 start))
run-IsEnded_example = run-IsEnded env 4 start (finished (run env 4 start)) returned runs
