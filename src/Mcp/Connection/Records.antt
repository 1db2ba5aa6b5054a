-- ===== src/Mcp/Connection/Records.antt =====
-- The records of a server's tools (MCPServerConnection._tool_record, _tool_enabled and _assert_unique_names of
-- agent-harness/src/agent_harness/mcp/connection.py).
use general_agent_design.Common.{
  String, Bool, true, false, not, ◌&&◌, ◌||◌, Option, none, some, List, [], ◌∷◌, any, ◌==◌,
  if◌then◌else◌,
}
use general_agent_design.Common.Dict.{Dict, lookup, insert}
use general_agent_design.Domain.Json.{Members, no_member}
use general_agent_design.Mcp.Models.{McpServerConfig, McpToolRecord}
use general_agent_design.Mcp.Naming.{canonical_tool_name}
use general_agent_design.Mcp.Connection.State.{
  protocol_error, Reply, returned, threw, Step, pure, lift, ◌>>◌, ◌>>=◌,
}
use general_agent_design.Mcp.Connection.Offers.{RawTool, Sdk}

abbrev pub or_nothing : Option Members → Members
or_nothing none = no_member
or_nothing (some ms) = ms

module _ (k : Sdk) where
  -- _tool_enabled
  unfoldable pub tool_enabled : McpServerConfig → String → Bool
  tool_enabled config name =
      (is_none config.enabled_tools || any (k.fnmatch name) config.enabled_tools)
      && not (any (k.fnmatch name) config.disabled_tools)
    where
      is_none : List String → Bool
      is_none [] = true
      is_none (_ ∷ _) = false

  abbrev pub fault : Option String → Reply (Unit {0})
  fault none = returned tt
  fault (some m) = threw (protocol_error m)

  -- check_mcp_schema of an output schema, if there is one
  abbrev pub output_fault : Option Members → Reply (Unit {0})
  output_fault none = returned tt
  output_fault (some no_member) = returned tt
  output_fault (some ms) = fault (k.check_schema ms)

  abbrev pub kept_schema : Option Members → Option Members
  kept_schema (some no_member) = none
  kept_schema o = o

  -- _tool_record
  unfoldable pub tool_record : String → RawTool → Step McpToolRecord
  tool_record server_name tool = do
    lift (fault (k.check_schema tool.input_schema))
    lift (output_fault tool.output_schema)
    pure (record {
      server_name = server_name;
      remote_name = tool.name;
      canonical_name = canonical_tool_name k.ascii k.digest server_name tool.name 64 8;
      description = described tool.description;
      input_schema = tool.input_schema;
      output_schema = kept_schema tool.output_schema;
      annotations = or_nothing tool.annotations;
    })
    where
      described : Option String → String
      described none = "MCP tool"
      described (some s) = if s == "" then "MCP tool" else s

  unfoldable pub tool_records : String → List RawTool → Step (List McpToolRecord)
  tool_records server_name [] = pure []
  tool_records server_name (t ∷ ts) = do
    r ← tool_record server_name t
    rs ← tool_records server_name ts
    pure (r ∷ rs)

  abbrev pub check_name : Option String → McpToolRecord → Reply (Unit {0})
  check_name none r = returned tt
  check_name (some previous) r =
      if previous == r.remote_name
      then returned tt
      else threw (protocol_error "Canonical MCP tool name collision")

  abbrev pub set_default : Option String → McpToolRecord → Dict String → Dict String
  set_default none r mapped = insert r.canonical_name r.remote_name mapped
  set_default (some _) r mapped = mapped

  -- _assert_unique_names, with the names that are mapped so far
  unfoldable pub assert_unique_names : List McpToolRecord → Dict String → Step (Unit {0})
  assert_unique_names [] mapped = pure tt
  assert_unique_names (r ∷ rs) mapped = do
    lift (check_name (lookup r.canonical_name mapped) r)
    assert_unique_names rs (set_default (lookup r.canonical_name mapped) r mapped)
