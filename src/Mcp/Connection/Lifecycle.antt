-- ===== src/Mcp/Connection/Lifecycle.antt =====
-- Where connecting and closing end (MCPServerConnection.connect and close of
-- agent-harness/src/agent_harness/mcp/connection.py).
use general_agent_design.Common.{
  ◌+◌, ◌≡◌, refl, sym, ap, ◌∙◌, Bool, true, false, some, ◌∷◌, arith, if◌then◌else◌,
}
use general_agent_design.Mcp.Models.{connecting, ready, failed, stopping}
use general_agent_design.Mcp.Connection.{
  Connection, McpException, connection_error, Capabilities, Reply, returned, threw, Done, throw,
  modify, handled, attempt, and_then, ◌>>=◌, emit, Sdk, Message, message_error, list_changed,
  other_message, handle_message, is_usable, is_cancelled, message_of, commit, refresh_catalogs,
  open_session, released, stop_task, stop_transport, fail_connect, connect_failed, connect_if,
  connect, ended, close_if, close,
}
use general_agent_design.Mcp.Connection.Frames.{Ignores, refresh_catalogs-Keeps}
use general_agent_design.Mcp.Connection.Refreshes.{IsRefreshed, refresh_catalogs-IsRefreshed}

-- The transport's task and the session
abbrev link : Connection → Bool × Bool
link s = (s.transport_task, s.session)

abbrev pub IsDown : Connection → Type 0
IsDown s = (s.transport_task ≡ false) × (s.session ≡ false)

-- Only a connection with a transport has a session.
abbrev pub IsLinked : Connection → Type 0
IsLinked s = s.session ≡ true → s.transport_task ≡ true

-- A connection that is made has a transport and can be used; one that failed has neither session nor
-- transport.
abbrev pub IsSettled : Done → Type 0
IsSettled (returned _, t) = (is_usable t ≡ true) × (t.transport_task ≡ true)
IsSettled (threw e, t) = (t.transport_task ≡ false) × (t.session ≡ false)

-- However the owner task ends, nothing is left of the session.
abbrev IsReleased : Done → Type 0
IsReleased (_, t) = IsDown t

messages_link : (m : Message) (s : Connection) → link (handle_message m s) ≡ link s
unfolding handle_message
messages_link message_error s = refl
messages_link list_changed s = refl
messages_link other_message s = refl

link_if : (b : Bool) (u t : Connection) → link u ≡ link t → link (if b then u else t) ≡ link t
link_if true u t h = h
link_if false u t h = refl

module _ (k : Sdk) where
  ignored : Ignores link k
  unfolding commit
  ignored = record {
    messages = messages_link;
    events = λ e s. refl;
    counts = λ n s. refl;
    marks = λ e s. link_if s.has_catalog_snapshot _ s refl;
    commits = λ c s. refl;
  }

  released_by :
      (r : Reply (Unit {0})) (s : Connection)
      → IsDown
          (and_then
            (handled (r, s) (λ e. modify (released k) >>= λ _. throw e))
            (λ _. modify (released k))).1
  unfolding ◌>>=◌
  released_by (returned _) s = (refl, refl)
  released_by (threw e) s = (refl, refl)

  stop_transport-IsDown : (s : Connection) → s.transport_task ≡ true → IsDown (stop_transport k s).1
  unfolding stop_transport ◌>>=◌ attempt
  stop_transport-IsDown s h =
      coe 0 1 (i. IsDown (stop_task k (sym h i) s).1)
        (released_by (k.stop s.stopped_count) (record s { stopped_count = s.stopped_count + 1 }))

  -- What follows the stop changes neither.
  down_cancelled :
      (x : Reply (Unit {0}) × Connection) (e : McpException)
      → IsDown x.1
      → IsSettled (and_then x (λ _. emit "mcp.server_connect_cancelled" >>= λ _. throw e))
  unfolding ◌>>=◌
  down_cancelled (returned _, t) e h = h
  down_cancelled (threw x, t) e h = h

  down_failed :
      (x : Reply (Unit {0}) × Connection) (e : McpException)
      → IsDown x.1
      → IsSettled (and_then x (λ _. emit "mcp.server_failed" >>= λ _. throw e))
  unfolding ◌>>=◌
  down_failed (returned _, t) e h = h
  down_failed (threw x, t) e h = h

  fail_connect-IsSettled :
      (b : Bool) (e : McpException) (s : Connection)
      → s.transport_task ≡ true
      → IsSettled (fail_connect k b e s)
  unfolding ◌>>=◌
  fail_connect-IsSettled true e s h =
      let t : Connection = record s { status = stopping } in
      down_cancelled (stop_transport k t) e (stop_transport-IsDown t h)
  fail_connect-IsSettled false e s h =
      let t : Connection = record s { status = failed; error = some (message_of e) } in
      down_failed (stop_transport k t) (connection_error (message_of e)) (stop_transport-IsDown t h)

  -- After the body of `try`: usable, or with a transport that is to be stopped
  abbrev IsTried : Done → Type 0
  IsTried (returned _, t) = (is_usable t ≡ true) × (t.transport_task ≡ true)
  IsTried (threw e, t) = t.transport_task ≡ true

  settled : (x : Done) → IsTried x → IsSettled (handled x (connect_failed k))
  unfolding connect_failed
  settled (returned _, t) h = h
  settled (threw e, t) h = fail_connect-IsSettled (is_cancelled e) e t h

  after_refresh :
      (offered : Capabilities) (x : Done) (s : Connection)
      → link x.1 ≡ link s
      → link s ≡ (true, true)
      → IsRefreshed k offered s x
      → IsTried (
          and_then x
            (λ _. modify (λ t. record t { status = ready }) >>= λ _. emit "mcp.server_ready"))
  unfolding ◌>>=◌ is_usable
  after_refresh offered (returned _, t) s h g r =
      (ground (arith, ap (λ p. p.1) r.replaced, ap (λ p. p.1) (h ∙ g)), ap (λ p. p.0) (h ∙ g))
  after_refresh offered (threw e, t) s h g r = ap (λ p. p.0) (h ∙ g)

  opened :
      (r : Reply Capabilities) (s : Connection)
      → s.transport_task ≡ true
      → IsTried (
          and_then
            (and_then
              (handled (r, s) (λ e. modify (λ t. record t { session = false }) >>= λ _. throw e))
              (λ offered. modify (λ t. record t {
                session = true;
                initialize_result = some offered;
                generation = t.generation + 1;
              })))
            (λ _. refresh_catalogs k >>= λ _.
              modify (λ t. record t { status = ready }) >>= λ _. emit "mcp.server_ready"))
  unfolding ◌>>=◌
  opened (threw e) s h = h
  opened (returned offered) s h =
      let t : Connection = record s {
        session = true;
        initialize_result = some offered;
        generation = s.generation + 1;
      } in
      after_refresh offered (refresh_catalogs k t) t (refresh_catalogs-Keeps link k ignored t)
        (ap (λ b. (b, true)) h) (refresh_catalogs-IsRefreshed k offered t refl refl)

  -- Connecting an enabled server, from any state of the connection, ends with a usable connection with
  -- its transport, or raises and leaves neither a transport nor a session, however the transport's end
  -- turns out.
  pub connect-IsSettled : (s : Connection) → s.config.enabled ≡ true → IsSettled (connect k s)
  unfolding connect open_session ◌>>=◌ attempt
  connect-IsSettled s h =
      let t : Connection = record s {
        status = connecting;
        events = "mcp.server_connecting" ∷ s.events;
        transport_task = true;
        opened = s.opened + 1;
      } in
      coe 0 1 (i. IsSettled (connect_if k (sym h i) s))
        (settled _ (opened (k.open_transport s.opened) t refl))

  after_stop :
      (x : Done)
      → IsDown x.1
      → IsDown
          (and_then (handled x (λ e. modify (ended k) >>= λ _. throw e)) (λ _. modify (ended k))).1
  unfolding ◌>>=◌
  after_stop (returned _, t) h = h
  after_stop (threw e, t) h = h

  close_if-IsDown :
      (b : Bool) (s : Connection) → s.transport_task ≡ b → IsLinked s → IsDown (close_if k b s).1
  unfolding ◌>>=◌ attempt
  close_if-IsDown true s h l =
      let t : Connection = record s { closing = true; status = stopping } in
      after_stop (stop_transport k t) (stop_transport-IsDown t h)
  close_if-IsDown false s h l = (h, ground (arith, h, l))

  -- Closing leaves neither, even where it raises.
  pub close-IsDown : (s : Connection) → IsLinked s → IsDown (close k s).1
  unfolding close
  close-IsDown s l = close_if-IsDown s.transport_task s refl l
