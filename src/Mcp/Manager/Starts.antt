-- ===== src/Mcp/Manager/Starts.antt =====
-- What the start of all servers comes to (MCPServerManager.start and shutdown of
-- agent-harness/src/agent_harness/mcp/manager.py).
use general_agent_design.Common.{
  String, ◌≡◌, refl, sym, ap, ◌∙◌, Bool, true, false, Option, none, some, List, [], ◌∷◌, map, arith,
}
use general_agent_design.Mcp.Models.{McpServerConfig}
use general_agent_design.Mcp.Config.Everywhere.{All}
use general_agent_design.Mcp.Connection.{
  Connection, McpException, returned, threw, Done, Sdk, is_cancelled, is_usable, connect,
  connect_if,
}
use general_agent_design.Mcp.Connection.Quiet.{connect_config, close_config}
use general_agent_design.Mcp.Connection.Lifecycle.{
  IsDown, IsLinked, IsSettled, connect-IsSettled, close-IsDown,
}
use general_agent_design.Mcp.Manager.{
  new_manager, add_error, required_errors, Started, cancelled_if, connect_one, connect_all,
  shutdown, conclude, judge, start,
}

-- A server that is enabled and required can be used.
abbrev pub IsServing : Connection → Type 0
IsServing c = c.config.enabled ≡ true → c.config.required ≡ true → is_usable c ≡ true

-- Every required server can be used, or nothing is left of any connection, unless it was cancelled.
abbrev pub IsStarted : Started (Unit {0}) → Type 0
IsStarted (returned _, cs) = All IsServing cs
IsStarted (threw e, cs) = is_cancelled e ≡ false → All IsDown cs

-- The results of connecting, one for each connection
abbrev Agree : List (Option McpException) → List Connection → Type 0
Agree (r ∷ rs) (c ∷ cs) = (r ≡ none → c.config.enabled ≡ true → is_usable c ≡ true) × Agree rs cs
Agree [] [] = Unit
Agree _ _ = ⊥

abbrev IsTried : Started (List (Option McpException)) → Type 0
IsTried (returned rs, cs) = Agree rs cs × All IsLinked cs
IsTried (threw e, cs) = is_cancelled e ≡ true

-- No error is required, and so not of this server, or the server is not required.
no_error :
    (b : Bool) (r : Option McpException) (es : List McpException)
    → add_error b r es ≡ []
    → (es ≡ []) × (b ≡ true → r ≡ none)
no_error true none es h = (h, λ _. refl)
no_error true (some e) es h = absurd cc
no_error false r es h = (h, λ g. absurd cc)

serving :
    (rs : List (Option McpException)) (cs : List Connection)
    → Agree rs cs
    → required_errors rs cs ≡ []
    → All IsServing cs
unfolding required_errors
serving [] [] a h = tt
serving [] (c ∷ cs) a h = absurd a
serving (r ∷ rs) [] a h = absurd a
serving (r ∷ rs) (c ∷ cs) (p, a) h =
    let n : (required_errors rs cs ≡ []) × (c.config.required ≡ true → r ≡ none) =
      no_error c.config.required r (required_errors rs cs) h in
    (λ e q. p (n.1 q) e, serving rs cs a n.0)

-- One connection that was tried
abbrev IsTriedOne : Done → Type 0
IsTriedOne (returned _, c) = (c.config.enabled ≡ true → is_usable c ≡ true) × IsLinked c
IsTriedOne (threw e, c) = IsLinked c

settled_one : (x : Done) → IsSettled x → IsTriedOne x
settled_one (returned _, c) h = (λ _. h.0, λ _. h.1)
settled_one (threw e, c) h = λ g. absurd (ground (arith, h, g))

one_if :
    (k : Sdk) (b : Bool) (c : Connection)
    → c.config.enabled ≡ b
    → IsLinked c
    → IsTriedOne (connect k c)
unfolding connect
one_if k true c h l = settled_one (connect k c) (connect-IsSettled k c h)
one_if k false c h l =
    coe 0 1 (i. IsTriedOne (connect_if k (sym h i) c)) (λ g. absurd (ground (arith, h, g)), l)

cancelled_by :
    (b : Bool) (e : McpException) (c : Connection) (cs : List Connection)
    (rest : Started (List (Option McpException)))
    → is_cancelled e ≡ b
    → IsLinked c
    → IsTried rest
    → IsTried (cancelled_if b e c cs rest)
cancelled_by true e c cs rest h l t = h
cancelled_by false e c cs (returned rs, ds) h l t = ((λ n. absurd cc, t.0), (l, t.1))
cancelled_by false e c cs (threw x, ds) h l t = t

connect_one-IsTried :
    (x : Done) (cs : List Connection) (rest : Started (List (Option McpException)))
    → IsTriedOne x
    → IsTried rest
    → IsTried (connect_one x cs rest)
connect_one-IsTried (returned _, c) cs (returned rs, ds) h t = ((λ _. h.0, t.0), (h.1, t.1))
connect_one-IsTried (returned _, c) cs (threw e, ds) h t = t
connect_one-IsTried (threw e, c) cs rest h t = cancelled_by (is_cancelled e) e c cs rest refl h t

abbrev pub configs_of : List Connection → List McpServerConfig
configs_of cs = map (λ c. c.config) cs

tried_configs :
    (b : Bool) (e : McpException) (c : Connection) (cs : List Connection)
    (rest : Started (List (Option McpException)))
    → configs_of rest.1 ≡ configs_of cs
    → configs_of (cancelled_if b e c cs rest).1 ≡ c.config ∷ configs_of cs
tried_configs true e c cs rest h = refl
tried_configs false e c cs (returned rs, ds) h = ap (λ l. c.config ∷ l) h
tried_configs false e c cs (threw x, ds) h = ap (λ l. c.config ∷ l) h

module _ (sdk : String → Sdk) where
  connect_all-IsTried : (cs : List Connection) → All IsLinked cs → IsTried (connect_all sdk cs)
  unfolding connect_all
  connect_all-IsTried [] l = (tt, tt)
  connect_all-IsTried (c ∷ cs) (l, ls) =
      connect_one-IsTried (connect (sdk c.config.name) c) cs (connect_all sdk cs)
        (one_if (sdk c.config.name) c.config.enabled c refl l) (connect_all-IsTried cs ls)

  shutdown-IsDown : (cs : List Connection) → All IsLinked cs → All IsDown (shutdown sdk cs)
  unfolding shutdown
  shutdown-IsDown [] l = tt
  shutdown-IsDown (c ∷ cs) (l, ls) = (close-IsDown (sdk c.config.name) c l, shutdown-IsDown cs ls)

  conclude-IsStarted :
      (es : List McpException) (cs : List Connection)
      → (es ≡ [] → All IsServing cs)
      → All IsLinked cs
      → IsStarted (conclude sdk es cs)
  conclude-IsStarted [] cs h l = h refl
  conclude-IsStarted (e ∷ es) cs h l = λ _. shutdown-IsDown cs l

  judge-IsStarted : (x : Started (List (Option McpException))) → IsTried x → IsStarted (judge sdk x)
  judge-IsStarted (returned rs, cs) (a, l) =
      conclude-IsStarted (required_errors rs cs) cs (serving rs cs a) l
  judge-IsStarted (threw e, cs) h = λ n. absurd cc

  new_manager-All : (configs : List McpServerConfig) → All IsLinked (new_manager configs)
  unfolding new_manager
  new_manager-All [] = tt
  new_manager-All (c ∷ cs) = (λ h. absurd cc, new_manager-All cs)

  connect_one-configs :
      (x : Done) (cs : List Connection) (rest : Started (List (Option McpException)))
      → configs_of rest.1 ≡ configs_of cs
      → configs_of (connect_one x cs rest).1 ≡ x.1.config ∷ configs_of cs
  connect_one-configs (returned _, c) cs (returned rs, ds) h = ap (λ l. c.config ∷ l) h
  connect_one-configs (returned _, c) cs (threw e, ds) h = ap (λ l. c.config ∷ l) h
  connect_one-configs (threw e, c) cs rest h = tried_configs (is_cancelled e) e c cs rest h

  connect_all-configs : (cs : List Connection) → configs_of (connect_all sdk cs).1 ≡ configs_of cs
  unfolding connect_all
  connect_all-configs [] = refl
  connect_all-configs (c ∷ cs) =
      connect_one-configs (connect (sdk c.config.name) c) cs (connect_all sdk cs)
        (connect_all-configs cs)
      ∙ ap (λ d. d ∷ configs_of cs) (connect_config (sdk c.config.name) c)

  shutdown-configs : (cs : List Connection) → configs_of (shutdown sdk cs) ≡ configs_of cs
  unfolding shutdown
  shutdown-configs [] = refl
  shutdown-configs (c ∷ cs) =
      ap (λ d. d ∷ configs_of (shutdown sdk cs)) (close_config (sdk c.config.name) c)
      ∙ ap (λ l. c.config ∷ l) (shutdown-configs cs)

  conclude-configs :
      (es : List McpException) (cs : List Connection)
      → configs_of (conclude sdk es cs).1 ≡ configs_of cs
  conclude-configs [] cs = refl
  conclude-configs (e ∷ es) cs = shutdown-configs cs

  judge-configs :
      (x : Started (List (Option McpException))) → configs_of (judge sdk x).1 ≡ configs_of x.1
  judge-configs (returned rs, cs) = conclude-configs (required_errors rs cs) cs
  judge-configs (threw e, cs) = refl

  new_manager-configs :
      (configs : List McpServerConfig) → configs_of (new_manager configs) ≡ configs
  unfolding new_manager
  new_manager-configs [] = refl
  new_manager-configs (c ∷ cs) = ap (λ l. c ∷ l) (new_manager-configs cs)

  -- Starting all servers keeps them all, in order, and returns with every server that is enabled and
  -- required ready for use, or raises and leaves no transport and no session of any server, unless it
  -- is cancelled.
  pub start-IsStarted :
      (configs : List McpServerConfig)
      → (configs_of (start sdk (new_manager configs)).1 ≡ configs)
        × IsStarted (start sdk (new_manager configs))
  unfolding start
  start-IsStarted configs =
      let cs : List Connection = new_manager configs in
      (
        judge-configs (connect_all sdk cs) ∙ connect_all-configs cs ∙ new_manager-configs configs,
        judge-IsStarted (connect_all sdk cs) (connect_all-IsTried cs (new_manager-All configs)),
      )
