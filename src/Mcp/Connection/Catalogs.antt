-- ===== src/Mcp/Connection/Catalogs.antt =====
-- The refresh of a server's catalogs (MCPServerConnection.refresh_catalogs of
-- agent-harness/src/agent_harness/mcp/connection.py). The events of single pages and the payloads of events are left out.
use general_agent_design.Common.{
  ℕ, ◌+◌, Bool, true, false, ◌||◌, Option, some, List, [], ◌∷◌, map, select, if◌then◌else◌,
}
use general_agent_design.Domain.Json.{Members}
use general_agent_design.Security.Rules.{or_text}
use general_agent_design.Mcp.Models.{
  healthy, degraded_health, McpToolRecord, McpResourceRecord, McpPromptRecord,
}
use general_agent_design.Mcp.Pagination.{Catalog}
use general_agent_design.Mcp.Connection.State.{
  McpException, connection_error, Capabilities, Connection, Step, pure, throw, gets, attempt,
  modify, ◌>>◌, ◌>>=◌, emit,
}
use general_agent_design.Mcp.Connection.Offers.{
  Message, message_error, list_changed, other_message, Sdk, is_cancelled, message_of, collected,
}
use general_agent_design.Mcp.Connection.Records.{tool_enabled, tool_records, assert_unique_names}

-- _handle_message
unfoldable pub handle_message : Message → Connection → Connection
handle_message message_error s = record s { events = "mcp.server_message_error" ∷ s.events }
handle_message list_changed s = record s {
  events = "mcp.catalog_stale" ∷ "mcp.catalog_list_changed" ∷ s.events;
  catalog_stale = true;
}
handle_message other_message s = s

abbrev pub handle_all : List Message → Connection → Connection
handle_all [] s = s
handle_all (m ∷ ms) s = handle_all ms (handle_message m s)

-- The candidates, and what has been counted
pub record Candidates : Type 0 where
  pub tools : List McpToolRecord
  pub resources : List McpResourceRecord
  pub resource_templates : List Members
  pub prompts : List McpPromptRecord
  pub page_count : ℕ
  pub truncated : Bool

-- The candidates before anything is fetched
abbrev pub current : Connection → Candidates
current s = record {
  tools = s.tools;
  resources = s.resources;
  resource_templates = s.resource_templates;
  prompts = s.prompts;
  page_count = 0;
  truncated = false;
}

module _ (k : Sdk) where
  abbrev pub counted : {A : Type 0} → Catalog A → Candidates → Candidates
  counted catalog c = record c {
    page_count = c.page_count + catalog.page_count;
    truncated = c.truncated || catalog.truncated;
  }

  unfoldable pub fetch_tools : Bool → Candidates → Step Candidates
  fetch_tools false c = pure c
  fetch_tools true c = do
    config ← gets (λ s. s.config)
    n ← gets (λ s. s.refreshed)
    raw ← collected 2000 (k.tool_pages n)
    records ← tool_records k config.name (select (λ t. tool_enabled k config t.name) raw.items)
    assert_unique_names k records []
    pure (record (counted raw c) { tools = records })

  unfoldable pub fetch_resources : Bool → Candidates → Step Candidates
  fetch_resources false c = pure c
  fetch_resources true c = do
    config ← gets (λ s. s.config)
    n ← gets (λ s. s.refreshed)
    raw ← collected 5000 (k.resource_pages n)
    templates ← collected 5000 (k.template_pages n)
    pure (record (counted templates (counted raw c)) {
      resources =
          map
            (λ r. record {
              server_name = config.name;
              uri = r.uri;
              name = r.name;
              description = or_text "" r.description;
              mime_type = r.mime_type;
            })
            raw.items;
      resource_templates = templates.items;
    })

  unfoldable pub fetch_prompts : Bool → Candidates → Step Candidates
  fetch_prompts false c = pure c
  fetch_prompts true c = do
    config ← gets (λ s. s.config)
    n ← gets (λ s. s.refreshed)
    raw ← collected 1000 (k.prompt_pages n)
    pure (record (counted raw c) {
      prompts =
          map
            (λ p. record {
              server_name = config.name;
              name = p.name;
              description = or_text "" p.description;
              arguments = p.arguments;
            })
            raw.items;
    })

  -- The body of `try`, in which messages of the server arrive
  unfoldable pub fetch_candidates : Capabilities → Step Candidates
  fetch_candidates offered = do
    n ← gets (λ s. s.refreshed)
    modify (λ s. handle_all (k.arriving n) s)
    c ← gets current
    c1 ← fetch_tools offered.tools c
    c2 ← fetch_resources offered.resources c1
    fetch_prompts offered.prompts c2

  abbrev pub preserved : McpException → Connection → Connection
  preserved e s =
      if s.has_catalog_snapshot
      then record s {
        catalog_stale = true;
        health = degraded_health;
        error = some (message_of e);
        events = "mcp.catalog_refresh_failed" ∷ s.events;
      }
      else s

  abbrev pub fail_refresh : Bool → McpException → Step Candidates
  fail_refresh true e = emit "mcp.catalog_refresh_cancelled" >> throw e
  fail_refresh false e = modify (preserved e) >> throw e

  -- What an exception in it leads to
  unfoldable pub refresh_failed : McpException → Step Candidates
  refresh_failed e = fail_refresh (is_cancelled e) e

  unfoldable pub commit : Candidates → Connection → Connection
  commit c s = record s {
    tools = c.tools;
    resources = c.resources;
    resource_templates = c.resource_templates;
    prompts = c.prompts;
    catalog_page_count = c.page_count;
    catalog_truncated = c.truncated;
    catalog_stale = false;
    has_catalog_snapshot = true;
    health = if c.truncated then degraded_health else healthy;
    events =
        if c.truncated
        then "mcp.catalog_refresh_completed" ∷ "mcp.catalog_truncated" ∷ s.events
        else "mcp.catalog_refresh_completed" ∷ s.events;
  }

  abbrev pub refresh_with : Option Capabilities → Bool → Step (Unit {0})
  refresh_with (some offered) true = do
    emit "mcp.catalog_refresh_started"
    modify (λ s. record s { refreshed = s.refreshed + 1 })
    c ← attempt (fetch_candidates offered) refresh_failed
    modify (commit c)
  refresh_with _ _ = throw (connection_error "MCP server is not initialized")

  -- refresh_catalogs
  unfoldable pub refresh_catalogs : Step (Unit {0})
  refresh_catalogs s = refresh_with s.initialize_result s.session s
