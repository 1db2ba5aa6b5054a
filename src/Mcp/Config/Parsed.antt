-- ===== src/Mcp/Config/Parsed.antt =====
-- What a row is parsed to, and what holds of all winners (parse_server_config and _parse_rows of
-- agent-harness/src/agent_harness/mcp/config.py).
use general_agent_design.Common.{String, ◌≡◌, refl}
use general_agent_design.Domain.Json.{
  pos, Value, null, bool, int, float, text, array, dict, Members,
}
use general_agent_design.Domain.Numbers.{find_member}
use general_agent_design.Mcp.Outcome.{good}
use general_agent_design.Mcp.Models.{McpConfigScope, McpServerConfig}
use general_agent_design.Mcp.Config.Row.{
  Host, value_or, truthy_some, optional_text, text_tuple, read_transport, check_endpoint,
  working_directory, float_setting, parse_object, parse_server_config,
}
use general_agent_design.Mcp.Config.Everywhere.{Returns, >>=-Returns}

-- The row of a server is an object; it has a command or a URL as its transport demands, and the URL is a
-- valid one, in clear text only where the row itself allows it. `digest` of the row is the server's hash.
pub record IsParsed (h : Host) (name : String) (v : Value) (scope : McpConfigScope)
    (c : McpServerConfig) : Type 0 where
  pub named : c.name ≡ name
  pub scoped : c.scope ≡ scope
  pub row : Members
  pub is_row : v ≡ dict row
  pub hashed : c.config_hash ≡ h.digest (h.canonical v)
  pub reachable :
      check_endpoint h c.transport c.command c.url
        (truthy_some (find_member "allow_insecure_http" row))
      ≡ good tt

parse_object-IsParsed :
    (h : Host) (name : String) (row : Members) (scope : McpConfigScope) (root : String)
    → Returns (IsParsed h name (dict row) scope) (parse_object h name row scope root)
unfolding parse_object
parse_object-IsParsed h name row scope root =
    let P : McpServerConfig → Type 0 = IsParsed h name (dict row) scope in
    >>=-Returns P (read_transport h row) _ λ transport _.
      >>=-Returns P
        (check_endpoint h transport (optional_text h (find_member "command" row))
          (optional_text h (find_member "url" row))
          (truthy_some (find_member "allow_insecure_http" row)))
        _
        λ _ e.
          >>=-Returns P (working_directory h root (optional_text h (find_member "cwd" row))) _
            λ _ _. >>=-Returns P (text_tuple h (find_member "args" row)) _ λ _ _.
              >>=-Returns P (text_tuple h (find_member "env_vars" row)) _ λ _ _.
                >>=-Returns P (text_tuple h (find_member "oauth_scopes" row)) _ λ _ _.
                  >>=-Returns P
                    (float_setting h row "startup_timeout_seconds" "startup_timeout_sec"
                      (int (pos 10)))
                    _
                    λ _ _.
                      >>=-Returns P
                        (float_setting h row "tool_timeout_seconds" "tool_timeout_sec"
                          (int (pos 60)))
                        _
                        λ _ _.
                          >>=-Returns P
                            (h.to_float
                              (value_or (int (pos 5)) (find_member "cleanup_timeout_seconds" row)))
                            _
                            λ _ _.
                              >>=-Returns P (text_tuple h (find_member "enabled_tools" row)) _
                                λ _ _.
                                  >>=-Returns P (text_tuple h (find_member "disabled_tools" row)) _
                                    λ _ _. record {
                                      named = refl;
                                      scoped = refl;
                                      row = row;
                                      is_row = refl;
                                      hashed = refl;
                                      reachable = e;
                                    }

pub parse_server_config-IsParsed :
    (h : Host) (name : String) (v : Value) (scope : McpConfigScope) (root : String)
    → Returns (IsParsed h name v scope) (parse_server_config h name v scope root)
unfolding parse_server_config
parse_server_config-IsParsed h name (dict row) scope root =
    parse_object-IsParsed h name row scope root
parse_server_config-IsParsed h name null scope root = tt
parse_server_config-IsParsed h name (bool b) scope root = tt
parse_server_config-IsParsed h name (int n) scope root = tt
parse_server_config-IsParsed h name (float x) scope root = tt
parse_server_config-IsParsed h name (text s) scope root = tt
parse_server_config-IsParsed h name (array vs) scope root = tt
