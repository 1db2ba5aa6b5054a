-- ===== src/Mcp/Connection/Refreshes.antt =====
-- A refresh replaces all catalogs or none (MCPServerConnection.refresh_catalogs of
-- agent-harness/src/agent_harness/mcp/connection.py).
use general_agent_design.Common.{
  ◌+◌, ◌∷◌, ◌≡◌, refl, sym, ap, ◌∙◌, Bool, true, false, some, if◌then◌else◌,
}
use general_agent_design.Mcp.Models.{healthy, degraded_health}
use general_agent_design.Mcp.Connection.{
  Connection, McpException, Capabilities, Reply, returned, threw, Done, and_then, handled, attempt,
  modify, ◌>>=◌, Sdk, Message, message_error, list_changed, other_message, handle_message,
  Candidates, is_cancelled, preserved, fail_refresh, refresh_failed, fetch_candidates, commit,
  refresh_with, refresh_catalogs,
}
use general_agent_design.Mcp.Connection.Frames.{fetch_candidates-Keeps}

-- The catalogs, and whether there are any.
abbrev pub last_good : Connection → Candidates × Bool
last_good s = (
  record {
    tools = s.tools;
    resources = s.resources;
    resource_templates = s.resource_templates;
    prompts = s.prompts;
    page_count = s.catalog_page_count;
    truncated = s.catalog_truncated;
  },
  s.has_catalog_snapshot,
)

-- The connection as it is once a refresh has begun
abbrev pub begun : Connection → Connection
begun s = record s {
  events = "mcp.catalog_refresh_started" ∷ s.events;
  refreshed = s.refreshed + 1;
}

-- The catalogs are all those that were fetched, and are not stale.
pub record IsReplaced (k : Sdk) (offered : Capabilities) (s t : Connection) : Type 0 where
  pub fetched : Candidates
  pub meanwhile : Connection
  pub fetches : fetch_candidates k offered (begun s) ≡ (returned fetched, meanwhile)
  pub replaced : last_good t ≡ (fetched, true)
  pub healed : t.health ≡ (if fetched.truncated then degraded_health else healthy)
  pub current : t.catalog_stale ≡ false

-- What a refresh comes to: new catalogs, which are not stale, or the old ones, which are stale if they
-- were fetched before and the refresh was not cancelled.
abbrev pub IsRefreshed : Sdk → Capabilities → Connection → Done → Type 0
IsRefreshed k offered s (returned _, t) = IsReplaced k offered s t
IsRefreshed k offered s (threw e, t) =
    (last_good t ≡ last_good s)
    × (s.has_catalog_snapshot ≡ true → is_cancelled e ≡ false → t.catalog_stale ≡ true)

messages_keep : (m : Message) (s : Connection) → last_good (handle_message m s) ≡ last_good s
unfolding handle_message
messages_keep message_error s = refl
messages_keep list_changed s = refl
messages_keep other_message s = refl

marked_if :
    (b : Bool) (u t : Connection)
    → last_good u ≡ last_good t
    → u.catalog_stale ≡ true
    → (last_good (if b then u else t) ≡ last_good t)
      × (b ≡ true → (if b then u else t).catalog_stale ≡ true)
marked_if true u t h g = (h, λ _. g)
marked_if false u t h g = (refl, λ n. absurd cc)

marked :
    (k : Sdk) (e : McpException) (t : Connection)
    → (last_good (preserved k e t) ≡ last_good t)
      × (t.has_catalog_snapshot ≡ true → (preserved k e t).catalog_stale ≡ true)
marked k e t = marked_if t.has_catalog_snapshot _ t refl refl

failed_by :
    (k : Sdk) (offered : Capabilities) (s t : Connection) (e : McpException) (b : Bool)
    → is_cancelled e ≡ b
    → last_good t ≡ last_good s
    → IsRefreshed k offered s (and_then (fail_refresh k b e t) (λ c. modify (commit k c)))
unfolding ◌>>=◌
failed_by k o s t e true c h = (h, λ _ n. absurd cc)
failed_by k o s t e false c h =
    let m : (last_good (preserved k e t) ≡ last_good t)
        × (t.has_catalog_snapshot ≡ true → (preserved k e t).catalog_stale ≡ true) =
      marked k e t in
    (m.0 ∙ h, λ g _. m.1 (ap (λ p. p.1) h ∙ g))

after_fetch :
    (k : Sdk) (offered : Capabilities) (s : Connection) (x : Reply Candidates × Connection)
    → fetch_candidates k offered (begun s) ≡ x
    → last_good x.1 ≡ last_good s
    → IsRefreshed k offered s (and_then (handled x (refresh_failed k)) (λ c. modify (commit k c)))
unfolding refresh_failed commit
after_fetch k o s (returned c, t) e h = record {
  fetched = c;
  meanwhile = t;
  fetches = e;
  replaced = refl;
  healed = refl;
  current = refl;
}
after_fetch k o s (threw e, t) f h = failed_by k o s t e (is_cancelled e) refl h

-- A refresh of a connection with an initialized session either replaces all catalogs together by those
-- that it fetched, no longer stale, with the health that their truncation gives, or raises and leaves
-- all of them as they were, stale if they were fetched before and the refresh was not cancelled.
-- Messages of the server may arrive meanwhile.
pub refresh_catalogs-IsRefreshed :
    (k : Sdk) (offered : Capabilities) (s : Connection)
    → s.initialize_result ≡ some offered
    → s.session ≡ true
    → IsRefreshed k offered s (refresh_catalogs k s)
unfolding refresh_catalogs ◌>>=◌ attempt
refresh_catalogs-IsRefreshed k offered s h g =
    coe 0 1 (i. IsRefreshed k offered s (refresh_with k (sym h i) (sym g i) s)) (
      after_fetch k offered s (fetch_candidates k offered (begun s)) refl
        (fetch_candidates-Keeps last_good k offered messages_keep (begun s)))
