-- ===== src/Mcp/Config/Winners.antt =====
-- What holds of all winners, whatever the rows are (_parse_rows and the sources of MCPConfigResolver.resolve
-- in agent-harness/src/agent_harness/mcp/config.py).
use general_agent_design.Common.{
  String, ◌≡◌, refl, Bool, true, false, not, ◌&&◌, Option, none, some, List, [], ◌∷◌, ◌++◌,
  contains, if◌then◌else◌,
}
use general_agent_design.Common.Dict.{insert}
use general_agent_design.Domain.Json.{Value, Members, no_member, member}
use general_agent_design.Mcp.Outcome.{Failure, Outcome, good, bad, ◌>>=◌}
use general_agent_design.Mcp.Models.{McpConfigScope, McpServerConfig}
use general_agent_design.Tools.Schema.{at}
use general_agent_design.Mcp.Config.Row.{parse_server_config}
use general_agent_design.Mcp.Config.{
  Platform, McpConfigResolver, Parsing, is_project, is_admin, is_row_error, is_file_error, diagnose,
  remove, server_rows, and_then, text_of, row_label, keep, parse_row, parse_rows, parse_decoded,
  parse_found, parse_source, catch_file, or_raise,
}
use general_agent_design.Mcp.Config.Everywhere.{Values, Returns, insert-Values, remove-Values}
use general_agent_design.Mcp.Config.Parsed.{IsParsed, parse_server_config-IsParsed}

module _ (o : Platform) (r : McpConfigResolver) (P : McpServerConfig → Type 0) where
  -- Whatever a row that is not ignored or blocked is parsed to is so.
  abbrev pub Admits : McpConfigScope → List String → Type 0
  Admits scope names =
      (name : String) (v : Value) (c : McpServerConfig)
      → (contains name names && not (is_admin scope)) ≡ false
      → (is_project scope && not r.trust.mcp_allowed) ≡ false
      → IsParsed o.host name v scope c
      → P c

  abbrev Winning : Parsing → Type 0
  Winning p = Values P p.winners

  abbrev pub Keeps : Parsing × Outcome (Unit {0}) → Type 0
  Keeps x = Winning x.0

  keep_good :
      (b : Bool) (c : McpServerConfig) (p : Parsing)
      → (b ≡ false → P c)
      → Winning p
      → Keeps (
          if b
          then (
            record p { blocked = p.blocked ++ (c ∷ []); winners = remove c.name p.winners },
            good tt,
          )
          else (record p { winners = insert c.name c p.winners }, good tt))
  keep_good true c p f v = remove-Values P c.name p.winners v
  keep_good false c p f v = insert-Values P c.name c p.winners (f refl) v

  -- An exception, caught or not, changes no winner.
  unchanged :
      (b : Bool) (m : String) (e : Failure) (p : Parsing)
      → Winning p
      → Keeps (if b then (diagnose m p, good tt) else (p, bad e))
  unchanged true m e p v = v
  unchanged false m e p v = v

  keep-Winning :
      (scope : McpConfigScope) (name : String) (m : Outcome McpServerConfig) (p : Parsing)
      → Returns (λ c. (is_project scope && not r.trust.mcp_allowed) ≡ false → P c) m
      → Winning p
      → Keeps (keep o r scope name m p)
  unfolding keep
  keep-Winning scope name (good c) p f v =
      keep_good (is_project scope && not r.trust.mcp_allowed) c p f v
  keep-Winning scope name (bad e) p f v =
      unchanged (is_row_error e) (row_label o r scope name (text_of o r e)) e p v

  either_row :
      (b : Bool) (m : String) (p : Parsing) (x : Parsing × Outcome (Unit {0}))
      → Winning p
      → (b ≡ false → Keeps x)
      → Keeps (if b then (diagnose m p, good tt) else x)
  either_row true m p x v f = v
  either_row false m p x v f = f refl

  returned :
      {Q R : McpServerConfig → Type 0} (m : Outcome McpServerConfig)
      → ((c : McpServerConfig) → Q c → R c)
      → Returns Q m
      → Returns R m
  returned (good c) f q = f c q
  returned (bad e) f q = tt

  parse_row-Winning :
      (scope : McpConfigScope) (names : List String) (name : String) (row : Value) (p : Parsing)
      → Admits scope names
      → Winning p
      → Keeps (parse_row o r scope names name row p)
  unfolding parse_row
  parse_row-Winning scope names name row p f v =
      either_row (contains name names && not (is_admin scope))
        (row_label o r scope name "ignored because Admin defines this server") p
        (keep o r scope name (parse_server_config o.host name row scope r.project_root) p) v
        (λ free.
          keep-Winning scope name (parse_server_config o.host name row scope r.project_root) p
            (returned (parse_server_config o.host name row scope r.project_root)
              (λ c q unblocked. f name row c free unblocked q)
              (parse_server_config-IsParsed o.host name row scope r.project_root))
            v)

  next_rows :
      (x : Parsing × Outcome (Unit {0})) (k : Parsing → Parsing × Outcome (Unit {0}))
      → ((p : Parsing) → Winning p → Keeps (k p))
      → Keeps x
      → Keeps (and_then x k (λ e q. (q, bad e)))
  next_rows (p, good _) k f v = f p v
  next_rows (p, bad e) k f v = v

  pub parse_rows-Winning :
      (scope : McpConfigScope) (names : List String) (rows : Members) (p : Parsing)
      → Admits scope names
      → Winning p
      → Keeps (parse_rows o r scope names rows p)
  unfolding parse_rows
  parse_rows-Winning scope names no_member p f v = v
  parse_rows-Winning scope names (member name row rows) p f v =
      next_rows (parse_row o r scope names name row p) (parse_rows o r scope names rows)
        (λ q w. parse_rows-Winning scope names rows q f w)
        (parse_row-Winning scope names name row p f v)

  parse_decoded-Winning :
      (scope : McpConfigScope) (names : List String) (m : Outcome Members) (p : Parsing)
      → Admits scope names
      → Winning p
      → Keeps (parse_decoded o r scope names m p)
  parse_decoded-Winning scope names (good rows) p f v = parse_rows-Winning scope names rows p f v
  parse_decoded-Winning scope names (bad e) p f v = v

  caught :
      (path : String) (x : Parsing × Outcome (Unit {0}))
      → Keeps x
      → Keeps (and_then x (λ q. (q, good tt)) (catch_file o r path))
  caught path (p, good _) v = v
  caught path (p, bad e) v = unchanged (is_file_error e) (at path (at ": " (text_of o r e))) e p v

  parse_found-Winning :
      (scope : McpConfigScope) (names : List String) (path : String) (m : Option (Outcome Value))
      (p : Parsing)
      → Admits scope names
      → Winning p
      → Keeps (parse_found o r scope names path m p)
  parse_found-Winning scope names path none p f v = v
  parse_found-Winning scope names path (some raw) p f v =
      caught path (parse_decoded o r scope names (raw >>= server_rows) p)
        (parse_decoded-Winning scope names (raw >>= server_rows) p f v)

  pub parse_source-Winning :
      (names : List String) (scope : McpConfigScope) (path : String) (p : Parsing)
      → Admits scope names
      → Winning p
      → Keeps (parse_source o r names scope path p)
  unfolding parse_source
  parse_source-Winning names scope path p f v =
      parse_found-Winning scope names path (o.file path) p f v

  pub or_raise-Winning :
      (x : Parsing × Outcome (Unit {0})) → Keeps x → Returns Winning (or_raise o r x)
  or_raise-Winning (p, good _) v = v
  or_raise-Winning (p, bad e) v = tt
