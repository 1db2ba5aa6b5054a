-- ===== src/Tools/Runtime/State.antt =====
-- What a ToolRuntime (agent-harness/src/agent_harness/tools/runtime.py) holds: the registry of
-- agent-harness/src/agent_harness/tools/registry.py, its collaborators, and the state that a call
-- changes. `W` is the world that executors and the artifact store act on.
use general_agent_design.Common.{
  ℕ, String, Bool, true, false, Option, none, some, List, [], ◌∷◌, ◌==◌, if◌then◌else◌,
}
use Prim.Native.String
use general_agent_design.Common.Dict.{Dict, lookup, insert, has}
use general_agent_design.Agent.Action.{Action, modify}
use general_agent_design.Domain.Errors.{value_error, Result, ok, err, fail, tool_not_found}
use general_agent_design.Domain.Json.{Value, Arguments}
use general_agent_design.Domain.Tools.{ToolDefinition}
use general_agent_design.Security.Models.{
  SandboxMode, workspace_write, Principal, FilePath, SandboxPolicy, Host,
}
use general_agent_design.Security.Rules.{PermissionRule}
use general_agent_design.Security.Grants.{Digest}
use general_agent_design.Security.Hooks.{Outcome}
use general_agent_design.Security.Approval.{AuditEvent, Gate, Handler, emit}
use general_agent_design.Tools.Schema.{Schema, Python}

-- A registered definition with its schemas; `executor` runs under `asyncio.wait_for`, which raises
-- the timeout.
pub record Tool (W : Type 0) : Type 0 where
  pub definition : ToolDefinition
  pub description : String
  pub input_schema : Schema
  pub output_schema : Option Schema
  pub executor : Arguments → W → Result Value × W

-- ToolRegistry.register
unfoldable pub register : {W : Type 0} → Tool W → Dict (Tool W) → Result (Dict (Tool W))
register tool tools =
    if has tool.definition.name tools
    then err (value_error (String.◌++◌ "Tool already registered: " tool.definition.name))
    else if tool.description == ""
    then err (value_error "Tool description is required")
    else ok (insert tool.definition.name tool tools)

-- ToolRegistry.get
unfoldable pub get : {W : Type 0} → String → Dict (Tool W) → Result (Tool W)
get name tools = elim (lookup name tools) [
  | none ↦ fail tool_not_found (String.◌++◌ "Unknown tool: " name)
  | some tool ↦ ok tool
]

-- A tool call as a provider sends it: arguments that are a dict, or a text still to be read.
pub data RawArguments : Type 0 where
  parsed : Arguments → RawArguments
  unparsed : String → RawArguments

pub record RawCall : Type 0 where
  pub id : String
  pub name : String
  pub arguments : RawArguments

-- ArtifactRef as `asdict` gives it, and the fields that are read.
pub record ArtifactRef : Type 0 where
  pub artifact_id : String
  pub path : String
  pub size_bytes : ℕ
  pub fields : Dict Value

-- ArtifactStore.put_text and put_base64, with the text, the MIME type, the principal, the server's
-- name, the tool's name and the call's identifier.
pub record ArtifactStore (W : Type 0) : Type 0 where
  pub put_text : String → String → Principal → String → String → String → W → Result ArtifactRef × W
  pub put_base64 :
      String → String → Principal → String → String → String → W → Result ArtifactRef × W

-- What does not change while calls run. `loads` and `dumps` are json.loads and json.dumps; the hooks
-- are given by the outcomes of their callbacks on a payload.
pub record Env (W : Type 0) : Type 0 where
  pub host : Host
  pub digest : Digest
  pub python : Python
  pub loads : String → Option Value
  pub dumps : Value → String
  pub stable_id : Principal → String → Arguments → String
  pub handler : Handler
  pub rules : List PermissionRule
  pub tools : Dict (Tool W)
  pub max_result_chars : ℕ
  pub workspace_root : FilePath
  pub sandbox_policy_factory : Option (Principal → SandboxPolicy)
  pub pre_hooks : String → Arguments → Principal → List Outcome
  pub post_hooks : String → Arguments → Value → Principal → List Outcome
  pub artifacts : Option (ArtifactStore W)

pub record Session (W : Type 0) : Type 0 where
  pub gate : Gate
  pub world : W

abbrev is_workspace_write : SandboxMode → Bool
is_workspace_write workspace_write = true
is_workspace_write _ = false

module _ {W : Type 0} where
  abbrev pub with_gate : {A : Type 0} → Session W → Result A × Gate → Result A × Session W
  with_gate s (r, g) = (r, record s { gate = g })

  abbrev pub with_world : {A : Type 0} → Session W → Result A × W → Result A × Session W
  with_world s (r, w) = (r, record s { world = w })

  -- An action on the approvals, and one on the world.
  unfoldable pub in_gate : {A : Type 0} → (Gate → Result A × Gate) → Action (Session W) A
  in_gate m s = with_gate s (m s.gate)

  unfoldable pub in_world : {A : Type 0} → (W → Result A × W) → Action (Session W) A
  in_world m s = with_world s (m s.world)

  -- ToolRuntime._emit
  unfoldable pub note : AuditEvent → Action (Session W) (Unit {0})
  unfolding modify
  note e = modify (λ s. record s { gate = emit e s.gate })

  -- ToolRuntime._sandbox_policy
  unfoldable pub sandbox_policy : Env W → Principal → SandboxPolicy
  sandbox_policy e principal = elim e.sandbox_policy_factory [
    | some make ↦ make principal
    | none ↦
        let root = e.host.canonical e.workspace_root in
        record {
          mode = principal.sandbox_mode;
          workspace_root = root;
          readable_roots = root ∷ [];
          writable_roots = if is_workspace_write principal.sandbox_mode then root ∷ [] else [];
          network_enabled = false;
          environment_allow = "PATH" ∷ "LANG" ∷ "LC_ALL" ∷ "TERM" ∷ "SYSTEMROOT" ∷ "WINDIR" ∷ [];
          max_output_chars = 50000;
        }
  ]
