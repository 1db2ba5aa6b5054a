-- ===== src/Mcp/Config.antt =====
-- agent-harness/src/agent_harness/mcp/config.py: MCPConfigResolver. Rows that are parsed before an exception
-- stay parsed. The roots of a resolver are resolved paths.
pub mod Row
pub mod Managed
mod Collections
mod Judgement
pub mod Everywhere
mod Parsed
mod Winners
pub mod Permitted
pub mod Refusals
use general_agent_design.Common.{
  String, not, ◌&&◌, Option, none, some, List, [], ◌∷◌, ◌++◌, contains, if◌then◌else◌,
}
use general_agent_design.Common.Dict.{insert, keys}
use general_agent_design.Domain.Json.{Value, Members, no_member, member}
use general_agent_design.Tools.Runtime.{take_text}
use general_agent_design.Tools.Schema.{at}
use general_agent_design.Mcp.Outcome.{Failure, configuration_error, Outcome, good, bad, ◌>>=◌, ◌>>◌}
use general_agent_design.Mcp.Models.{McpConfigScope, admin, user, local, project, McpServerConfig}
use general_agent_design.Mcp.Config.Managed.{
  McpAdminConfig, is_admin_error, parse_admin, absent_admin, invalid_admin,
}
use general_agent_design.Mcp.Config.Row.{parse_server_config}
unfoldable pub use Collections.*
unfoldable pub use Judgement.*

module _ (o : Platform) (r : McpConfigResolver) where
  abbrev pub text_of : Failure → String
  text_of (configuration_error m) = m
  text_of e = o.message e

  abbrev pub row_label : McpConfigScope → String → String → String
  row_label scope name m = at (scope_text scope) (at ":" (at name (at ": " m)))

  -- A row whose parsing has come to something
  unfoldable pub keep :
      McpConfigScope → String → Outcome McpServerConfig → Parsing → Parsing × Outcome (Unit {0})
  keep scope name (good c) p =
      if is_project scope && not r.trust.mcp_allowed
      then (
        record p { blocked = p.blocked ++ (c ∷ []); winners = remove c.name p.winners },
        good tt,
      )
      else (record p { winners = insert c.name c p.winners }, good tt)
  keep scope name (bad e) p =
      if is_row_error e
      then (diagnose (row_label scope name (text_of e)) p, good tt)
      else (p, bad e)

  unfoldable pub parse_row :
      McpConfigScope → List String → String → Value → Parsing → Parsing × Outcome (Unit {0})
  parse_row scope protected_names name row p =
      if contains name protected_names && not (is_admin scope)
      then (diagnose (row_label scope name "ignored because Admin defines this server") p, good tt)
      else keep scope name (parse_server_config o.host name row scope r.project_root) p

  -- _parse_rows
  unfoldable pub parse_rows :
      McpConfigScope → List String → Members → Parsing → Parsing × Outcome (Unit {0})
  parse_rows scope protected_names no_member p = (p, good tt)
  parse_rows scope protected_names (member name row rows) p =
      and_then (parse_row scope protected_names name row p) (parse_rows scope protected_names rows)
        (λ e q. (q, bad e))

  -- An exception while a file is read, decoded or parsed
  abbrev pub catch_file : String → Failure → Parsing → Parsing × Outcome (Unit {0})
  catch_file path e p =
      if is_file_error e then (diagnose (at path (at ": " (text_of e))) p, good tt) else (p, bad e)

  abbrev pub parse_decoded :
      McpConfigScope → List String → Outcome Members → Parsing → Parsing × Outcome (Unit {0})
  parse_decoded scope names (good rows) p = parse_rows scope names rows p
  parse_decoded scope names (bad e) p = (p, bad e)

  abbrev pub parse_found :
      McpConfigScope
      → List String
      → String
      → Option (Outcome Value)
      → Parsing
      → Parsing × Outcome (Unit {0})
  parse_found scope names path none p = (p, good tt)
  parse_found scope names path (some raw) p =
      and_then (parse_decoded scope names (raw >>= server_rows) p) (λ q. (q, good tt))
        (catch_file path)

  -- The round of a source
  unfoldable pub parse_source :
      List String → McpConfigScope → String → Parsing → Parsing × Outcome (Unit {0})
  parse_source names scope path p = parse_found scope names path (o.file path) p

  -- _project_identity
  unfoldable pub project_identity : String
  project_identity = take_text 24 (o.host.digest (o.casefold r.project_root))

  abbrev pub user_path : String
  user_path = o.join r.user_root "mcp.json"

  abbrev pub project_path : String
  project_path = o.join r.project_root ".mcp.json"

  abbrev pub local_path : String
  local_path = o.join (o.join (o.join r.user_root "projects") project_identity) "mcp.json"

  abbrev pub admin_path : String
  admin_path = o.join r.admin_root "mcp.json"

  abbrev pub settle_admin : Outcome McpAdminConfig → Parsing → Outcome (McpAdminConfig × Parsing)
  settle_admin (good a) p = good (a, p)
  settle_admin (bad e) p =
      if is_admin_error e
      then good (
        invalid_admin,
        diagnose (at "admin MCP configuration is invalid (" (at (o.class_name e) ")")) p,
      )
      else bad e

  abbrev pub admin_found : Option (Outcome Value) → Parsing → Outcome (McpAdminConfig × Parsing)
  admin_found none p = good (absent_admin, p)
  admin_found (some raw) p = settle_admin (raw >>= parse_admin) p

  -- _read_admin_config
  unfoldable pub read_admin_config : Parsing → Outcome (McpAdminConfig × Parsing)
  read_admin_config p = admin_found (o.file admin_path) p

  abbrev pub or_raise : Parsing × Outcome (Unit {0}) → Outcome Parsing
  or_raise x = and_then x good (λ e p. bad e)

  -- What the managed rows leave
  unfoldable pub managed : Outcome (McpAdminConfig × Parsing)
  managed = read_admin_config nothing_parsed >>= λ x.
      or_raise (parse_rows admin [] x.0.servers x.1) >>= λ p. good (x.0, p)

  -- What the user's rows and the three files add to it
  unfoldable pub collect_rows : List String → Members → Parsing → Outcome Parsing
  collect_rows admin_names inline p = do
    p1 ← or_raise (parse_rows user admin_names inline p)
    p2 ← or_raise (parse_source admin_names user user_path p1)
    p3 ← or_raise (parse_source admin_names project project_path p2)
    or_raise (parse_source admin_names local local_path p3)

  -- MCPConfigResolver.resolve; no inline servers are an object without members.
  unfoldable pub resolve : Members → Outcome McpResolvedConfig
  resolve inline = managed >>= λ x. collect_rows (keys x.1.winners) inline x.1 >>= conclude o x.0
