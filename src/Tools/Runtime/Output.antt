-- ===== src/Tools/Runtime/Output.antt =====
-- What ToolRuntime.execute (agent-harness/src/agent_harness/tools/runtime.py) makes of a tool's output:
-- _format_output, the limit on a result's length, and the artifacts of MCP results. Texts are measured
-- and cut by characters.
use Prim.Native.Nat.{min}
use Prim.Native.String
use Prim.Native.String.count
use general_agent_design.Common.{
  ℕ, zero, suc, ◌≤◌, String, Bool, true, false, not, ltb, Option, none, some, [], ◌∷◌, ◌==◌,
  if◌then◌else◌, arith,
}
use general_agent_design.Common.Dict.{Dict, insert}
use general_agent_design.Agent.Action.{Action, pure, lift, ◌>>=◌, ◌>>◌}
use general_agent_design.Domain.Errors.{Result, ok, err, other}
use general_agent_design.Domain.Json.{
  pos, Value, null, bool, int, text, array, dict, Elements, no_element, element, Members, no_member,
  member,
}
use general_agent_design.Domain.Numbers.{find_member, equal_ℤ}
use general_agent_design.Domain.Tools.{ToolDefinition}
use general_agent_design.Security.Models.{Principal, given}
use general_agent_design.Security.Approval.{artifact_created}
use general_agent_design.Tools.Schema.{at}
use general_agent_design.Tools.Runtime.State.{RawCall, ArtifactStore, Env, Session, in_world, note}

-- s[:n]
unfoldable pub take_text : ℕ → String → String
take_text zero s = ""
take_text (suc n) String.[] = ""
take_text (suc n) (String.◌∷◌ c s) = String.◌∷◌ c (take_text n s)

pub count-take_text : (n : ℕ) (s : String) → String.count (take_text n s) ≤ n
unfolding take_text
count-take_text zero s = omega arith
count-take_text (suc n) String.[] = omega arith
count-take_text (suc n) (String.◌∷◌ c s) =
    omega (arith, count-take_text n s, count.cons c (take_text n s))

-- ToolRuntime._format_output
unfoldable pub format_output : {W : Type 0} → Env W → Value → String
format_output e (text s) = s
format_output e v = e.dumps v

-- The truth of a value.
abbrev pub truthy : Value → Bool
truthy null = false
truthy (bool b) = b
truthy (int n) = not (equal_ℤ n (pos 0))
truthy (text s) = not (s == "")
truthy (array no_element) = false
truthy (dict no_member) = false
truthy _ = true

abbrev pub characters : String → Elements
characters String.[] = no_element
characters (String.◌∷◌ c s) = element (text (String.◌∷◌ c "")) (characters s)

abbrev pub key_elements : Members → Elements
key_elements no_member = no_element
key_elements (member k v ms) = element (text k) (key_elements ms)

-- `for item in d.get(k, [])`
unfoldable pub iterate : Option Value → Result Elements
iterate none = ok no_element
iterate (some (array vs)) = ok vs
iterate (some (dict ms)) = ok (key_elements ms)
iterate (some (text s)) = ok (characters s)
iterate (some _) = err (other "object is not iterable")

-- d[k] = v
abbrev pub set_member : String → Value → Members → Members
set_member k v no_member = member k v no_member
set_member k v (member j w ms) = if j == k then member j v ms else member j w (set_member k v ms)

abbrev pub as_members : Dict Value → Members
as_members [] = no_member
as_members ((k, v) ∷ d) = member k v (as_members d)

abbrev text_of : Option Value → Option String
text_of (some (text s)) = some s
text_of _ = none

-- item.get("data"), if it is a text and the item a dict
abbrev pub payload : Value → Option String
payload (dict ms) = text_of (find_member "data" ms)
payload _ = none

abbrev pub members_of : Value → Members
members_of (dict ms) = ms
members_of _ = no_member

-- a or b, for what a dict may lack
abbrev or_value : Option Value → Value → Value
or_value none w = w
or_value (some v) w = if truthy v then v else w

abbrev or_text : Option Value → String → Value
or_text none s = text s
or_text (some v) s = v

abbrev or_false : Option Value → Value
or_false none = null
or_false (some v) = v

module _ {W : Type 0} (e : Env W) (store : ArtifactStore W) (principal : Principal) (call : RawCall)
    (server : String) where
  unfoldable pub mime_type : Members → String
  mime_type ms = e.python.show (
      or_value (find_member "mimeType" ms)
        (or_value (find_member "mime_type" ms) (text "application/octet-stream")))

  -- One item of a channel: its base64 payload is stored and replaced by a reference.
  unfoldable pub externalize_item : String → Value → Action (Session W) Value
  unfolding mime_type
  externalize_item kind item = elim (payload item) [
    | none ↦ pure item
    | some data_text ↦ do
      ref ← in_world (
          store.put_base64 data_text (mime_type (members_of item)) principal server call.name
            call.id)
      note (artifact_created call.id ref.artifact_id)
      pure (
          dict (
            member "type" (or_text (find_member "type" (members_of item)) kind)
              (member "artifact" (dict (as_members ref.fields)) no_member)))
  ]

  unfoldable pub externalize_items : String → Elements → Action (Session W) Elements
  unfolding externalize_item
  externalize_items kind no_element = pure no_element
  externalize_items kind (element v vs) = do
    w ← externalize_item kind v
    ws ← externalize_items kind vs
    pure (element w ws)

  unfoldable pub externalize_channel : String → String → Members → Action (Session W) Members
  unfolding externalize_items
  externalize_channel channel kind ms = do
    found ← lift (iterate (find_member channel ms))
    replaced ← externalize_items kind found
    pure (set_member channel (array replaced) ms)

  -- ToolRuntime._externalize_mcp_binary
  unfoldable pub externalize_mcp_binary : Members → Action (Session W) Value
  unfolding externalize_channel
  externalize_mcp_binary ms = do
    one ← externalize_channel "images" "image" ms
    both ← externalize_channel "audio" "audio" one
    pure (dict both)

  -- ToolRuntime._write_mcp_artifact; the references' fields are the new entries of the metadata.
  unfoldable pub write_mcp_artifact : String → Action (Session W) (String × Dict Value)
  write_mcp_artifact content = do
    ref ← in_world (store.put_text content "application/json" principal server call.name call.id)
    note (artifact_created call.id ref.artifact_id)
    pure (
      ref.artifact_id,
      insert "truncated" (bool false) (
          insert "original_size" (int (pos ref.size_bytes))
            (insert "artifact_path" (text ref.path) ref.fields)),
    )

-- metadata.update(entries)
unfoldable pub update : Dict Value → Dict Value → Dict Value
update d [] = d
update d ((k, v) ∷ entries) = update (insert k v d) entries

abbrev pub cut_note : String
cut_note = "\n[truncated]"

abbrev pub uncut_note : String
uncut_note = "\n[truncated: no thread ArtifactStore]"

abbrev pub cut : ℕ → String → String → Dict Value → String × Dict Value
cut limit suffix content metadata =
    (at (take_text limit content) suffix, insert "truncated" (bool true) metadata)

module _ {W : Type 0} (e : Env W) (principal : Principal) (call : RawCall) where
  -- An oversized MCP result: stored, or cut where there is no store.
  unfoldable pub shorten_mcp :
      Option (ArtifactStore W)
      → String
      → String
      → Dict Value
      → Action (Session W) (String × Dict Value)
  shorten_mcp none server content metadata =
      pure (cut e.max_result_chars uncut_note content metadata)
  shorten_mcp (some store) server content metadata = do
    stored ← write_mcp_artifact e store principal call server content
    pure (
      at (take_text (min 2000 e.max_result_chars) content)
          (at "\n[完整结果已保存为 Artifact: " (at stored.0 "]")),
      update metadata stored.1,
    )

  abbrev server_name : Option String → String
  server_name none = ""
  server_name (some s) = s

  -- The lines of execute on `len(content) > self.max_result_chars`.
  unfoldable pub bound_content :
      ToolDefinition → String → Dict Value → Action (Session W) (String × Dict Value)
  unfolding shorten_mcp
  bound_content tool content metadata =
      if ltb e.max_result_chars (String.count content)
      then (if given tool.mcp_server
          then shorten_mcp e.artifacts (server_name tool.mcp_server) content metadata
          else pure (cut e.max_result_chars cut_note content metadata))
      else pure (content, metadata)
