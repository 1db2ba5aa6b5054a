-- ===== src/Mcp/Results.antt =====
-- agent-harness/src/agent_harness/mcp/results.py: the channels of a tool's result. An item of content comes
-- with its JSON form; `dumps` is the JSON text of a value.
use general_agent_design.Common.{String, Bool, Option, none, some, List, [], ◌∷◌}
use general_agent_design.Domain.Json.{
  Value, null, bool, text, array, dict, Elements, no_element, element, Members, no_member, member,
}
use general_agent_design.Compaction.{join_lines}

pub data Content : Type 0 where
  text_content : String → Content
  resource_link embedded_resource image_content audio_content other_content : Members → Content

pub record CallToolResult : Type 0 where
  pub content : List Content
  pub structured_content : Option Members
  pub is_error : Bool

pub record McpNormalizedToolResult : Type 0 where
  pub structured_content : Option Members
  pub text_content : List String
  pub resource_links : List Members
  pub embedded_resources : List Members
  pub images : List Members
  pub audio : List Members
  pub is_error : Bool

abbrev pub put_content : Content → McpNormalizedToolResult → McpNormalizedToolResult
put_content (text_content s) r = record r { text_content = s ∷ r.text_content }
put_content (resource_link p) r = record r { resource_links = p ∷ r.resource_links }
put_content (embedded_resource p) r = record r { embedded_resources = p ∷ r.embedded_resources }
put_content (image_content p) r = record r { images = p ∷ r.images }
put_content (audio_content p) r = record r { audio = p ∷ r.audio }
put_content (other_content p) r = record r { embedded_resources = p ∷ r.embedded_resources }

-- The channels of items of content, each in their order
unfoldable pub partition_content : List Content → McpNormalizedToolResult → McpNormalizedToolResult
partition_content [] r = r
partition_content (c ∷ cs) r = put_content c (partition_content cs r)

-- normalize_tool_result
unfoldable pub normalize_tool_result : CallToolResult → McpNormalizedToolResult
normalize_tool_result result = partition_content result.content (record {
  structured_content = result.structured_content;
  text_content = [];
  resource_links = [];
  embedded_resources = [];
  images = [];
  audio = [];
  is_error = result.is_error;
})

abbrev pub texts_value : List String → Elements
texts_value [] = no_element
texts_value (s ∷ ss) = element (text s) (texts_value ss)

abbrev pub dicts_value : List Members → Elements
dicts_value [] = no_element
dicts_value (d ∷ ds) = element (dict d) (dicts_value ds)

abbrev pub dict_or_null : Option Members → Value
dict_or_null none = null
dict_or_null (some d) = dict d

-- MCPNormalizedToolResult.model_payload
unfoldable pub model_payload : McpNormalizedToolResult → Members
model_payload r = member "structured_content" (dict_or_null r.structured_content) (
    member "text" (array (texts_value r.text_content)) (
      member "resource_links" (array (dicts_value r.resource_links)) (
        member "embedded_resources" (array (dicts_value r.embedded_resources)) (
          member "images" (array (dicts_value r.images)) (
            member "audio" (array (dicts_value r.audio))
              (member "is_error" (bool r.is_error) no_member))))))

-- MCPNormalizedToolResult.error_message
unfoldable pub error_message : (Value → String) → McpNormalizedToolResult → String
error_message dumps r = message_of r.text_content
  where
    message_of : List String → String
    message_of [] = dumps (dict (model_payload r))
    message_of (s ∷ ss) = join_lines (s ∷ ss)
