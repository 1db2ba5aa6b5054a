-- ===== src/Mcp/Connection/Frames.antt =====
-- Parts of a connection that steps leave as they are
-- (agent-harness/src/agent_harness/mcp/connection.py).
use general_agent_design.Common.{
  ℕ, ◌+◌, String, ◌≡◌, refl, ◌∙◌, Bool, true, false, Option, none, some, List, [], ◌∷◌, select,
  ◌&&◌,
}
use general_agent_design.Common.Dict.{Dict, lookup}
use general_agent_design.Mcp.Models.{McpToolRecord}
use general_agent_design.Mcp.Pagination.{Server, collect_paginated}
use general_agent_design.Mcp.Connection.{
  Capabilities, Connection, McpException, Reply, returned, threw, Step, throw, lift, gets, handled,
  attempt, modify, and_then, ◌>>=◌, emit, require_if, is_live_status, require_session, Sdk, RawTool,
  Message, pages, collected, handle_message, handle_all, Candidates, current, tool_enabled, fault,
  output_fault, tool_record, tool_records, check_name, set_default, assert_unique_names,
  fetch_tools, fetch_resources, fetch_prompts, fetch_candidates, refresh_failed, is_cancelled,
  preserved, fail_refresh, commit, refresh_with, refresh_catalogs,
}

module _ {B : Type 0} (f : Connection → B) where
  abbrev pub Keeps : {A : Type 0} → Step A → Type 0
  Keeps m = (s : Connection) → f (m s).1 ≡ f s

  and_then-Keeps :
      {A C : Type 0} (x : Reply A × Connection) (g : A → Step C) (b : B)
      → f x.1 ≡ b
      → ((a : A) → Keeps (g a))
      → f (and_then x g).1 ≡ b
  and_then-Keeps (returned a, s) g b h k = k a s ∙ h
  and_then-Keeps (threw e, s) g b h k = h

  pub >>=-Keeps :
      {A C : Type 0} (m : Step A) (g : A → Step C)
      → Keeps m
      → ((a : A) → Keeps (g a))
      → Keeps (m >>= g)
  unfolding ◌>>=◌
  >>=-Keeps m g h k s = and_then-Keeps (m s) g (f s) (h s) k

  handled-Keeps :
      {A : Type 0} (x : Reply A × Connection) (g : McpException → Step A) (b : B)
      → f x.1 ≡ b
      → ((e : McpException) → Keeps (g e))
      → f (handled x g).1 ≡ b
  handled-Keeps (returned a, s) g b h k = h
  handled-Keeps (threw e, s) g b h k = k e s ∙ h

  pub attempt-Keeps :
      {A : Type 0} (m : Step A) (g : McpException → Step A)
      → Keeps m
      → ((e : McpException) → Keeps (g e))
      → Keeps (attempt m g)
  unfolding attempt
  attempt-Keeps m g h k s = handled-Keeps (m s) g (f s) (h s) k

  require_if-Keeps : (b : Bool) → Keeps (require_if b)
  require_if-Keeps true s = refl
  require_if-Keeps false s = refl

  pub require_session-Keeps : Keeps require_session
  unfolding require_session
  require_session-Keeps s = require_if-Keeps (s.session && is_live_status s.status) s

  collected-Keeps : {A : Type 0} (n : ℕ) (server : Server A) → Keeps (collected n server)
  collected-Keeps n server =
      >>=-Keeps require_session (λ _. lift (pages (collect_paginated server 100 n 101)))
        require_session-Keeps (λ _ s. refl)

  module _ (k : Sdk) where
    tool_record-Keeps : (name : String) (t : RawTool) → Keeps (tool_record k name t)
    unfolding tool_record
    tool_record-Keeps name t =
        >>=-Keeps (lift (fault k (k.check_schema t.input_schema))) _ (λ s. refl)
          λ _. >>=-Keeps (lift (output_fault k t.output_schema)) _ (λ s. refl) λ _ s. refl

    tool_records-Keeps : (name : String) (ts : List RawTool) → Keeps (tool_records k name ts)
    unfolding tool_records
    tool_records-Keeps name [] = λ s. refl
    tool_records-Keeps name (t ∷ ts) =
        >>=-Keeps (tool_record k name t) _ (tool_record-Keeps name t)
          λ r. >>=-Keeps (tool_records k name ts) _ (tool_records-Keeps name ts) λ rs s. refl

    assert_unique_names-Keeps :
        (rs : List McpToolRecord) (d : Dict String) → Keeps (assert_unique_names k rs d)
    unfolding assert_unique_names
    assert_unique_names-Keeps [] d = λ s. refl
    assert_unique_names-Keeps (r ∷ rs) d =
        >>=-Keeps (lift (check_name k (lookup r.canonical_name d) r)) _ (λ s. refl)
          λ _. assert_unique_names-Keeps rs (set_default k (lookup r.canonical_name d) r d)

    fetch_tools-Keeps : (b : Bool) (c : Candidates) → Keeps (fetch_tools k b c)
    unfolding fetch_tools
    fetch_tools-Keeps false c = λ s. refl
    fetch_tools-Keeps true c =
        >>=-Keeps (gets (λ s. s.config)) _ (λ s. refl)
          λ config.
            >>=-Keeps (gets (λ s. s.refreshed)) _ (λ s. refl)
              λ n.
                >>=-Keeps (collected 2000 (k.tool_pages n)) _
                  (collected-Keeps 2000 (k.tool_pages n))
                  λ raw.
                    >>=-Keeps
                      (tool_records k config.name
                        (select (λ t. tool_enabled k config t.name) raw.items))
                      _
                      (tool_records-Keeps config.name
                        (select (λ t. tool_enabled k config t.name) raw.items))
                      λ rs.
                        >>=-Keeps (assert_unique_names k rs []) _ (assert_unique_names-Keeps rs [])
                          λ _ s. refl

    fetch_resources-Keeps : (b : Bool) (c : Candidates) → Keeps (fetch_resources k b c)
    unfolding fetch_resources
    fetch_resources-Keeps false c = λ s. refl
    fetch_resources-Keeps true c =
        >>=-Keeps (gets (λ s. s.config)) _ (λ s. refl)
          λ config.
            >>=-Keeps (gets (λ s. s.refreshed)) _ (λ s. refl)
              λ n.
                >>=-Keeps (collected 5000 (k.resource_pages n)) _
                  (collected-Keeps 5000 (k.resource_pages n))
                  λ raw.
                    >>=-Keeps (collected 5000 (k.template_pages n)) _
                      (collected-Keeps 5000 (k.template_pages n)) λ ts s. refl

    fetch_prompts-Keeps : (b : Bool) (c : Candidates) → Keeps (fetch_prompts k b c)
    unfolding fetch_prompts
    fetch_prompts-Keeps false c = λ s. refl
    fetch_prompts-Keeps true c =
        >>=-Keeps (gets (λ s. s.config)) _ (λ s. refl)
          λ config.
            >>=-Keeps (gets (λ s. s.refreshed)) _ (λ s. refl)
              λ n.
                >>=-Keeps (collected 1000 (k.prompt_pages n)) _
                  (collected-Keeps 1000 (k.prompt_pages n)) λ raw s. refl

    handle_all-Keeps :
        ((m : Message) (s : Connection) → f (handle_message m s) ≡ f s)
        → (ms : List Message) (s : Connection) → f (handle_all ms s) ≡ f s
    handle_all-Keeps h [] s = refl
    handle_all-Keeps h (m ∷ ms) s = handle_all-Keeps h ms (handle_message m s) ∙ h m s

    -- What messages leave as it is, fetching does.
    pub fetch_candidates-Keeps :
        (offered : Capabilities)
        → ((m : Message) (s : Connection) → f (handle_message m s) ≡ f s)
        → Keeps (fetch_candidates k offered)
    unfolding fetch_candidates
    fetch_candidates-Keeps offered h =
        >>=-Keeps (gets (λ s. s.refreshed)) _ (λ s. refl)
          λ n.
            >>=-Keeps (modify (λ s. handle_all (k.arriving n) s)) _
              (handle_all-Keeps h (k.arriving n))
              λ _.
                >>=-Keeps (gets current) _ (λ s. refl)
                  λ c.
                    >>=-Keeps (fetch_tools k offered.tools c) _ (fetch_tools-Keeps offered.tools c)
                      λ c1.
                        >>=-Keeps (fetch_resources k offered.resources c1) _
                          (fetch_resources-Keeps offered.resources c1)
                          λ c2. fetch_prompts-Keeps offered.prompts c2

    -- What a refresh, whatever it comes to, leaves as it is.
    pub record Ignores : Type 0 where
      pub messages : (m : Message) (s : Connection) → f (handle_message m s) ≡ f s
      pub events : (e : String) (s : Connection) → f (record s { events = e ∷ s.events }) ≡ f s
      pub counts : (n : ℕ) (s : Connection) → f (record s { refreshed = n }) ≡ f s
      pub marks : (e : McpException) (s : Connection) → f (preserved k e s) ≡ f s
      pub commits : (c : Candidates) (s : Connection) → f (commit k c s) ≡ f s

    module _ (g : Ignores) where
      fail_refresh-Keeps : (b : Bool) (e : McpException) → Keeps (fail_refresh k b e)
      fail_refresh-Keeps true e =
          >>=-Keeps (emit "mcp.catalog_refresh_cancelled") (λ _. throw e)
            (g.events "mcp.catalog_refresh_cancelled") (λ _ s. refl)
      fail_refresh-Keeps false e =
          >>=-Keeps (modify (preserved k e)) (λ _. throw e) (g.marks e) (λ _ s. refl)

      refresh_with-Keeps : (o : Option Capabilities) (b : Bool) → Keeps (refresh_with k o b)
      unfolding refresh_failed
      refresh_with-Keeps none b = λ s. refl
      refresh_with-Keeps (some o) false = λ s. refl
      refresh_with-Keeps (some o) true =
          >>=-Keeps (emit "mcp.catalog_refresh_started") _ (g.events "mcp.catalog_refresh_started")
            λ _.
              >>=-Keeps (modify (λ s. record s { refreshed = s.refreshed + 1 })) _
                (λ s. g.counts (s.refreshed + 1) s)
                λ _.
                  >>=-Keeps (attempt (fetch_candidates k o) (refresh_failed k)) _
                    (attempt-Keeps (fetch_candidates k o) (refresh_failed k)
                      (fetch_candidates-Keeps o g.messages)
                      (λ e. fail_refresh-Keeps (is_cancelled e) e))
                    λ c. g.commits c

      pub refresh_catalogs-Keeps : Keeps (refresh_catalogs k)
      unfolding refresh_catalogs
      refresh_catalogs-Keeps s = refresh_with-Keeps s.initialize_result s.session s
