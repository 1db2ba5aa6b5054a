-- ===== src/Mcp/Models/Equality.antt =====
-- The equality that the dataclass MCPServerConfig of agent-harness/src/agent_harness/mcp/models.py has.
use general_agent_design.Common.{
  String, Bool, true, false, ◌&&◌, Option, none, some, List, [], ◌∷◌, ◌==◌,
}
use general_agent_design.Domain.Numbers.{Floats, equal}
use general_agent_design.Security.Rules.{list_eq}
use general_agent_design.Mcp.Models.{
  McpConfigScope, admin, user, local, project, bundled, McpTransport, stdio, streamable_http,
  McpServerConfig,
}

abbrev pub same_scope : McpConfigScope → McpConfigScope → Bool
same_scope admin admin = true
same_scope user user = true
same_scope local local = true
same_scope project project = true
same_scope bundled bundled = true
same_scope _ _ = false

abbrev pub same_transport : McpTransport → McpTransport → Bool
same_transport stdio stdio = true
same_transport streamable_http streamable_http = true
same_transport _ _ = false

abbrev pub same_bool : Bool → Bool → Bool
same_bool true b = b
same_bool false true = false
same_bool false false = true

abbrev pub same_option {ℓ} : {A : Type ℓ} → (A → A → Bool) → Option A → Option A → Bool
same_option f none none = true
same_option f (some a) (some b) = f a b
same_option f _ _ = false

abbrev pub same_pairs : List (String × String) → List (String × String) → Bool
same_pairs [] [] = true
same_pairs ((k, v) ∷ ps) ((j, w) ∷ qs) = (k == j && v == w) && same_pairs ps qs
same_pairs _ _ = false

-- c == d
unfoldable pub same_config : Floats → McpServerConfig → McpServerConfig → Bool
same_config f c d =
    c.name == d.name
    && (same_scope c.scope d.scope
        && (same_transport c.transport d.transport
            && (same_bool c.enabled d.enabled
                && (same_bool c.required d.required
                    && (same_option (λ s t. s == t) c.command d.command
                        && (list_eq c.args d.args
                            && (same_option (λ s t. s == t) c.cwd d.cwd
                                && (same_pairs c.env d.env
                                    && (list_eq c.env_vars d.env_vars
                                        && (same_option (λ s t. s == t) c.url d.url
                                            && (same_option (equal f) c.bearer_token_env_var
                                                  d.bearer_token_env_var
                                                && (same_pairs c.headers d.headers
                                                    && (c.auth_mode == d.auth_mode
                                                        && (list_eq c.oauth_scopes d.oauth_scopes
                                                            && (equal f c.startup_timeout_seconds
                                                            d.startup_timeout_seconds
                                                            && (equal f c.tool_timeout_seconds
                                                            d.tool_timeout_seconds
                                                            && (equal f c.cleanup_timeout_seconds
                                                            d.cleanup_timeout_seconds
                                                            && (list_eq c.enabled_tools
                                                            d.enabled_tools
                                                            && (list_eq c.disabled_tools
                                                            d.disabled_tools
                                                            && (c.default_approval_mode
                                                            == d.default_approval_mode
                                                            && (same_pairs c.tool_approval_overrides
                                                            d.tool_approval_overrides
                                                            && (same_bool c.always_load_tools
                                                            d.always_load_tools
                                                            && (same_bool c.trusted d.trusted
                                                            && c.config_hash
                                                            == d.config_hash)))))))))))))))))))))))
