-- ===== src/Mcp/Connection/Quiet.antt =====
-- Steps of a connection that call no tool (agent-harness/src/agent_harness/mcp/connection.py).
use general_agent_design.Common.{
  ℕ, ◌+◌, ◌≡◌, refl, ap, Bool, true, false, not, ◌&&◌, eqb, if◌then◌else◌,
}
use general_agent_design.Mcp.Models.{McpServerConfig, connecting, ready, reconnecting, stopping}
use general_agent_design.Mcp.Connection.{
  Connection, McpException, throw, lift, gets, modify, attempt, emit, Sdk, Message, message_error,
  list_changed, other_message, handle_message, is_usable, is_cancelled, commit, refresh_catalogs,
  open_session, released, stop_task, stop_transport, fail_connect, connect_failed, connect_if,
  connect, ended, close_if, close, reuse_or_connect, reinitialize,
}
use general_agent_design.Mcp.Connection.Frames.{
  Keeps, >>=-Keeps, attempt-Keeps, Ignores, refresh_catalogs-Keeps,
}

abbrev pub calls : Connection → ℕ
calls s = s.called

abbrev kept : Connection → ℕ × McpServerConfig
kept s = (s.called, s.config)

messages_keep : (m : Message) (s : Connection) → kept (handle_message m s) ≡ kept s
unfolding handle_message
messages_keep message_error s = refl
messages_keep list_changed s = refl
messages_keep other_message s = refl

module _ (k : Sdk) where
  kept_if : (b : Bool) (u t : Connection) → kept u ≡ kept t → kept (if b then u else t) ≡ kept t
  kept_if true u t h = h
  kept_if false u t h = refl

  ignored : Ignores kept k
  unfolding commit
  ignored = record {
    messages = messages_keep;
    events = λ e s. refl;
    counts = λ n s. refl;
    marks = λ e s. kept_if s.has_catalog_snapshot _ s refl;
    commits = λ c s. refl;
  }

  refresh_kept : Keeps kept (refresh_catalogs k)
  refresh_kept = refresh_catalogs-Keeps kept k ignored

  pub refresh_catalogs_quiet : Keeps calls (refresh_catalogs k)
  refresh_catalogs_quiet s = ap (λ p. p.0) (refresh_kept s)

  open_session-Keeps : Keeps kept (open_session k)
  unfolding open_session
  open_session-Keeps =
      >>=-Keeps kept (gets (λ s. s.opened)) _ (λ s. refl)
        λ n.
          >>=-Keeps kept (modify (λ s. record s { transport_task = true; opened = s.opened + 1 })) _
            (λ s. refl)
            λ _.
              >>=-Keeps kept (attempt (lift (k.open_transport n)) _) _
                (attempt-Keeps kept (lift (k.open_transport n)) _ (λ s. refl)
                  λ e.
                    >>=-Keeps kept (modify (λ s. record s { session = false })) (λ _. throw e)
                      (λ s. refl) (λ _ s. refl))
                λ c s. refl

  stop_task-Keeps : (b : Bool) → Keeps kept (stop_task k b)
  stop_task-Keeps false = λ s. refl
  stop_task-Keeps true =
      >>=-Keeps kept (gets (λ s. s.stopped_count)) _ (λ s. refl)
        λ n.
          >>=-Keeps kept (modify (λ s. record s { stopped_count = s.stopped_count + 1 })) _
            (λ s. refl)
            λ _.
              >>=-Keeps kept (attempt (lift (k.stop n)) _) _
                (attempt-Keeps kept (lift (k.stop n)) _ (λ s. refl)
                  λ e.
                    >>=-Keeps kept (modify (released k)) (λ _. throw e) (λ s. refl) (λ _ s. refl))
                λ _ s. refl

  stop_transport-Keeps : Keeps kept (stop_transport k)
  unfolding stop_transport
  stop_transport-Keeps s = stop_task-Keeps s.transport_task s

  fail_connect-Keeps : (b : Bool) (e : McpException) → Keeps kept (fail_connect k b e)
  fail_connect-Keeps true e =
      >>=-Keeps kept (modify (λ s. record s { status = stopping })) _ (λ s. refl)
        λ _. >>=-Keeps kept (stop_transport k) _ stop_transport-Keeps λ _.
          >>=-Keeps kept (emit "mcp.server_connect_cancelled") (λ _. throw e) (λ s. refl)
            λ _ s. refl
  fail_connect-Keeps false e =
      >>=-Keeps kept (modify _) _ (λ s. refl)
        λ _.
          >>=-Keeps kept (stop_transport k) _ stop_transport-Keeps
            λ _. >>=-Keeps kept (emit "mcp.server_failed") _ (λ s. refl) λ _ s. refl

  connect_if-Keeps : (b : Bool) → Keeps kept (connect_if k b)
  unfolding connect_failed
  connect_if-Keeps false = λ s. refl
  connect_if-Keeps true =
      >>=-Keeps kept (modify (λ s. record s { status = connecting })) _ (λ s. refl)
        λ _.
          >>=-Keeps kept (emit "mcp.server_connecting") _ (λ s. refl)
            λ _.
              attempt-Keeps kept _ (connect_failed k)
                (>>=-Keeps kept (open_session k) _ open_session-Keeps λ _.
                  >>=-Keeps kept (refresh_catalogs k) _ refresh_kept λ _.
                    >>=-Keeps kept (modify (λ s. record s { status = ready }))
                      (λ _. emit "mcp.server_ready") (λ s. refl) (λ _ s. refl))
                (λ e. fail_connect-Keeps (is_cancelled e) e)

  connect-Keeps : Keeps kept (connect k)
  unfolding connect
  connect-Keeps s = connect_if-Keeps s.config.enabled s

  close_if-Keeps : (b : Bool) → Keeps kept (close_if k b)
  close_if-Keeps false = λ s. refl
  close_if-Keeps true =
      >>=-Keeps kept (modify (λ s. record s { closing = true; status = stopping })) _ (λ s. refl)
        λ _.
          >>=-Keeps kept (attempt (stop_transport k) _) _
            (attempt-Keeps kept (stop_transport k) _ stop_transport-Keeps
              λ e. >>=-Keeps kept (modify (ended k)) (λ _. throw e) (λ s. refl) (λ _ s. refl))
            λ _ s. refl

  close-Keeps : Keeps kept (close k)
  unfolding close
  close-Keeps s = close_if-Keeps s.transport_task s

  reuse_or_connect-Keeps : (b : Bool) → Keeps kept (reuse_or_connect k b)
  reuse_or_connect-Keeps true = λ s. refl
  reuse_or_connect-Keeps false =
      >>=-Keeps kept (emit "mcp.session_expired") _ (λ s. refl)
        λ _. >>=-Keeps kept (close k) _ close-Keeps λ _.
          >>=-Keeps kept (modify (λ s. record s { status = reconnecting })) _ (λ s. refl)
            λ _.
              >>=-Keeps kept (connect k) (λ _. emit "mcp.session_reinitialized") connect-Keeps
                λ _ s. refl

  pub reinitialize-Keeps : (n : ℕ) → Keeps calls (reinitialize k n)
  unfolding reinitialize
  reinitialize-Keeps n s =
      ap (λ p. p.0) (reuse_or_connect-Keeps (not (eqb s.generation n) && is_usable s) s)

  pub connect_config : (s : Connection) → (connect k s).1.config ≡ s.config
  connect_config s = ap (λ p. p.1) (connect-Keeps s)

  pub close_config : (s : Connection) → (close k s).1.config ≡ s.config
  close_config s = ap (λ p. p.1) (close-Keeps s)
