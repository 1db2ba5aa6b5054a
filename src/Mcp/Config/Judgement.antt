-- ===== src/Mcp/Config/Judgement.antt =====
-- The administrator's judgement of the servers that are left (_admin_denial and the end of resolve in
-- agent-harness/src/agent_harness/mcp/config.py).
use general_agent_design.Common.{
  String, not, ◌&&◌, Option, none, some, [], ◌∷◌, ◌++◌, map, any, select, ◌==◌, contains,
  if◌then◌else◌,
}
use general_agent_design.Common.Dict.{Dict}
use general_agent_design.Tools.Schema.{at}
use general_agent_design.Mcp.Outcome.{Outcome, good, ◌>>=◌}
use general_agent_design.Mcp.Models.{McpServerConfig}
use general_agent_design.Mcp.Models.Equality.{same_config}
use general_agent_design.Security.Rules.{or_text}
use general_agent_design.Mcp.Sorting.{sort_by, distinct}
use general_agent_design.Mcp.Config.Collections.{
  McpResolvedConfig, Platform, Parsing, is_stdio, is_empty,
}
use general_agent_design.Mcp.Config.Managed.{McpAdminPolicy, McpAdminConfig}

module _ (o : Platform) where
  abbrev pub denied_host : McpAdminPolicy → String → Option String
  denied_host policy name =
      if any (λ d. o.fnmatch name (o.lower d)) policy.denied_http_domains
      then some "HTTP domain is denied"
      else if not (is_empty policy.allowed_http_domains)
          && not (any (λ d. o.fnmatch name (o.lower d)) policy.allowed_http_domains)
      then some "HTTP domain is not allowed"
      else none

  abbrev pub denied_url : McpAdminPolicy → Option String → Outcome (Option String)
  denied_url policy none = good none
  denied_url policy (some url) =
      if url == ""
      then good none
      else o.host.parse_url url >>= λ u. good (denied_host policy (o.lower (or_text "" u.hostname)))

  -- _admin_denial
  unfoldable pub admin_denial : McpAdminPolicy → McpServerConfig → Outcome (Option String)
  admin_denial policy c =
      if contains c.name policy.disabled_servers
      then good (some "server is disabled")
      else if is_stdio c.transport
          && (not (is_empty policy.allowed_stdio_commands)
              && not (any (λ p. o.fnmatch (or_text "" c.command) p) policy.allowed_stdio_commands))
      then good (some "stdio command is not allowed")
      else denied_url policy c.url

  abbrev pub restrict : McpAdminPolicy → McpServerConfig → McpServerConfig
  restrict policy c = record c {
    disabled_tools = sort_by (λ s. s) (distinct (c.disabled_tools ++ policy.denied_tools));
  }

  -- The loop over the winners; what it collects starts as `blocked` and `diagnostics` stand.
  abbrev pub judge : McpServerConfig → Option String → McpResolvedConfig → McpResolvedConfig
  judge c none d = record d { servers = d.servers ++ (restrict d.admin_policy c ∷ []) }
  judge c (some reason) d = record d {
    blocked = d.blocked ++ (c ∷ []);
    diagnostics = d.diagnostics ++ (at "admin:" (at c.name (at ": " reason)) ∷ []);
  }

  unfoldable pub judge_all : Dict McpServerConfig → McpResolvedConfig → Outcome McpResolvedConfig
  judge_all [] d = good d
  judge_all ((name, c) ∷ cs) d =
      admin_denial d.admin_policy c >>= λ reason. judge_all cs (judge c reason d)

  abbrev pub sorted_servers : McpResolvedConfig → McpResolvedConfig
  sorted_servers d = record d { servers = sort_by (λ c. c.name) d.servers }

  -- From the collections to the result: nothing is allowed under an invalid managed file.
  unfoldable pub conclude : McpAdminConfig → Parsing → Outcome McpResolvedConfig
  conclude a p =
      if a.exists && not a.valid
      then good (record {
        servers = [];
        blocked =
            sort_by (λ c. c.name)
              (p.blocked
                ++ select (λ c. not (any (same_config o.floats c) p.blocked))
                    (map (λ e. e.1) p.winners));
        diagnostics =
            p.diagnostics
            ++ ("admin: invalid managed configuration; all MCP servers disabled" ∷ []);
        admin_policy = a.policy;
      })
      else judge_all p.winners (record {
        servers = [];
        blocked = p.blocked;
        diagnostics = p.diagnostics;
        admin_policy = a.policy;
      })
        >>= λ d. good (sorted_servers d)
