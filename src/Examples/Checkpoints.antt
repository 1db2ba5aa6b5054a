-- ===== src/Examples/Checkpoints.antt =====
-- A turn that is saved twice, and a state that goes through a checkpoint.
use general_agent_design.Common.{String, ◌≡◌, ◌↔◌, refl, true, false, some, none, [], ◌∷◌}
use general_agent_design.Domain.Errors.{ok, err}
use general_agent_design.Agent.State.{
  running, before_model, tool_in_flight, model_in_flight, turn_running,
}
use general_agent_design.Tools.Runtime.{RawArguments, parsed, unparsed}
use general_agent_design.Common.Dict.{lookup}
use general_agent_design.Domain.Payload.{texts_of, write_texts, dict_of, write_dict}
use general_agent_design.Checkpoints.Envelope.{to_jsonable, convert, fill, checkpoint_from_dict}
use general_agent_design.Checkpoints.Store.{
  CheckpointEnvelope, CheckpointStore, insert_events, with_hash, save as save_in, latest,
}
use general_agent_design.Checkpoints.Manager.{CheckpointManager, Saved, envelope, save}
use general_agent_design.Checkpoints.Recovery.{retry, plan}
use general_agent_design.Checkpoints.Latest.{IsCurrent, unused}
use general_agent_design.Checkpoints.Continuity.{IsLatest, save-IsLatest, plan-save}
use general_agent_design.Checkpoints.Snapshot.{
  moment, MessageState, UsageState, Snapshot, serialize_run_state,
}
use general_agent_design.Checkpoints.Serializer.{Reader, restore_run_state}
use general_agent_design.Checkpoints.RoundTrip.{ReadsBack, kept_state, restore-serialize}
use general_agent_design.Checkpoints.Unreadable.{unreadable, restore_unreadable}

abbrev digest : CheckpointEnvelope → String
digest c = "d"

abbrev config : String → String → String
config provider model = "c"

abbrev fresh : CheckpointManager
fresh = record {
  thread_id = "t";
  provider_name = "p";
  model_name = "m";
  config_digest = "";
  runtime_version = "0.1.0";
  sequence = 0;
}

abbrev state : Saved
state = record { turn_id = some "u"; agent_name = "main"; serialized = [] }

abbrev empty_store : CheckpointStore
empty_store = record { checkpoints = []; outbox = [] }

-- After a first save.
abbrev one : CheckpointStore
one = (save digest config state before_model turn_running [] "k1" "now" (fresh, empty_store)).2

abbrev one_manager : CheckpointManager
one_manager = record fresh { sequence = 1 }

save-IsLatest_example :
    IsLatest digest config "u" fresh
      (envelope digest config fresh 1 state before_model turn_running [] "k1" "now")
      (save digest config state before_model turn_running [] "k1" "now" (fresh, empty_store))
save-IsLatest_example =
    save-IsLatest digest config "u" fresh empty_store state before_model turn_running [] "k1" "now"
      refl (λ e. cc) (λ c e. cc) refl (record { ahead = refl; agreeing = refl })

agrees : IsCurrent "u" one_manager one
unfolding save save_in envelope with_hash insert_events checkpoint_from_dict lookup to_jsonable
    convert fill texts_of write_texts dict_of write_dict
agrees = record { ahead = refl; agreeing = refl }

unused_k2 : unused "k2" one.checkpoints ≡ true
unfolding save save_in envelope with_hash insert_events
unused_k2 = refl

plan-save_example :
    (c : CheckpointEnvelope) × (latest digest "t"
        (some "u")
        (save digest config state tool_in_flight turn_running [] "k2" "now" (one_manager, one)).2
      ≡ ok (some c))
    × (c.resume_point ≡ tool_in_flight)
    × (c.turn_status ≡ turn_running)
    × (c.serialized_state ≡ [])
    × (((plan c none).disposition ≡ retry) ↔ (tool_in_flight ≡ model_in_flight))
plan-save_example =
    plan-save digest config "u" one_manager one state tool_in_flight turn_running [] "k2" "now" refl
      (λ e. cc) (λ c e. cc) unused_k2 agrees

abbrev reader : Reader (Unit {0})
reader = record { show = λ v. ""; fromisoformat = λ s. ok tt }

abbrev clock : Unit {0} → String
clock t = "2026"

reads_back : ReadsBack clock reader
reads_back = record { parses = λ t. refl; given = λ t e. cc }

abbrev no_use : UsageState
no_use = record {
  input_tokens = some 3;
  output_tokens = none;
  total_tokens = none;
  cached_input_tokens = none;
  cache_miss_input_tokens = none;
  reasoning_tokens = none;
  provider_details = [];
}

abbrev asking : RawArguments → MessageState (Unit {0})
asking a = record {
  role = "assistant";
  content = "";
  reasoning_content = none;
  message_id = "m1";
  tool_calls =
      record {
        id = "c1";
        name = "read_file";
        arguments = a;
        raw_arguments = some "{}";
        provider_metadata = [];
        sequence_index = 0;
      }
      ∷ [];
  tool_call_id = none;
  tool_name = none;
  created_at = moment tt;
  metadata = [];
}

abbrev snapshot : RawArguments → Snapshot (Unit {0})
snapshot a = record {
  task = "fix";
  workspace_root = "/old";
  agent_name = "main";
  run_id = "r";
  turn_id = some "u";
  turn_count = 1;
  session_summary = "";
  status = running;
  messages = asking a ∷ [];
  iteration = 1;
  model_call_count = 1;
  tool_call_count = 0;
  usage_total = no_use;
  started_at = tt;
  updated_at = tt;
  completed_at = none;
  final_output = none;
  error = none;
  cancellation_requested = false;
  agent_summary = none;
}

restore-serialize_example :
    restore_run_state reader (serialize_run_state clock (snapshot (parsed []))) "/new" tt
    ≡ ok (kept_state clock reader (snapshot (parsed [])) "/new")
restore-serialize_example =
    restore-serialize clock reader reads_back (snapshot (parsed [])) "/new" tt refl

restore_unreadable_example :
    restore_run_state reader (serialize_run_state clock (snapshot (unparsed "{bad"))) "/new" tt
    ≡ err unreadable
restore_unreadable_example =
    restore_unreadable clock reader reads_back (snapshot (unparsed "{bad")) "/new" tt refl
