-- ===== src/Mcp/Config/Permitted.antt =====
-- Which servers a resolution allows (MCPConfigResolver.resolve of agent-harness/src/agent_harness/mcp/config.py).
use general_agent_design.Common.{
  String, ◌≡◌, refl, sym, ap, ◌∙◌, Bool, true, false, not, ◌&&◌, Option, none, some, List, [], ◌∷◌,
  ◌++◌, ◌==◌, arith, any-append, contains, if◌then◌else◌,
}
use general_agent_design.Common.Dict.{Dict, keys}
use general_agent_design.Domain.Json.{Value, dict, Members}
use general_agent_design.Domain.Numbers.{find_member}
use general_agent_design.Mcp.Outcome.{Outcome, good, bad, ◌>>=◌}
use general_agent_design.Mcp.Models.{McpConfigScope, admin, user, local, project, McpServerConfig}
use general_agent_design.Mcp.Sorting.{distinct, contains-sort_by, contains-distinct}
use general_agent_design.Mcp.Config.Managed.{
  is_admin_error, parse_admin, McpAdminPolicy, McpAdminConfig,
}
use general_agent_design.Mcp.Config.Row.{truthy_some, check_endpoint}
use general_agent_design.Mcp.Config.{
  Platform, McpConfigResolver, McpResolvedConfig, Parsing, nothing_parsed, is_project, is_admin,
  admin_denial, restrict, judge, judge_all, sorted_servers, conclude, parse_rows, parse_source,
  user_path, admin_path, project_path, local_path, or_raise, read_admin_config, admin_found,
  settle_admin, managed, collect_rows, resolve,
}
use general_agent_design.Mcp.Config.Everywhere.{
  Values, All, Returns, Returns_at, append-All, sort_by-All, >>=-Returns,
}
use general_agent_design.Mcp.Config.Winners.{
  Admits, parse_rows-Winning, parse_source-Winning, or_raise-Winning,
}

module _ (o : Platform) (r : McpConfigResolver) (names : List String) where
  -- `names` are the servers of the administrator whose rows could be parsed. The row of a server is that
  -- of its hash, and a URL without TLS, but for the local host, is one that this row allows.
  pub record IsFit (c : McpServerConfig) : Type 0 where
    pub row : Members
    pub hashed : c.config_hash ≡ o.host.digest (o.host.canonical (dict row))
    pub reachable :
        check_endpoint o.host c.transport c.command c.url
          (truthy_some (find_member "allow_insecure_http" row))
        ≡ good tt
    pub trusted : is_project c.scope ≡ true → r.trust.mcp_allowed ≡ true
    pub managed : contains c.name names ≡ true → is_admin c.scope ≡ true

  pub record IsPermitted (policy : McpAdminPolicy) (c : McpServerConfig) : Type 0 where
    pub fit : IsFit c
    pub undenied : admin_denial o policy c ≡ good none
    pub restricted :
        (n : String) → contains n policy.denied_tools ≡ true → contains n c.disabled_tools ≡ true

  Admits-admin : Admits o r IsFit admin []
  Admits-admin name v c free unblocked q = record {
    row = q.row;
    hashed = q.hashed ∙ ap (λ x. o.host.digest (o.host.canonical x)) q.is_row;
    reachable = q.reachable;
    trusted = λ h. ground (arith, q.scoped);
    managed = λ h. ground (arith, q.scoped);
  }

  Admits-lower : (scope : McpConfigScope) → Admits o r IsFit scope names
  Admits-lower scope name v c free unblocked q = record {
    row = q.row;
    hashed = q.hashed ∙ ap (λ x. o.host.digest (o.host.canonical x)) q.is_row;
    reachable = q.reachable;
    trusted = λ h. ground (arith, q.scoped);
    managed = λ h. ground (arith, q.scoped, q.named);
  }

  restrict-IsPermitted :
      (policy : McpAdminPolicy) (c : McpServerConfig)
      → IsFit c
      → admin_denial o policy c ≡ good none
      → IsPermitted policy (restrict o policy c)
  unfolding admin_denial
  restrict-IsPermitted policy c f e = record {
    fit = record {
      row = f.row;
      hashed = f.hashed;
      reachable = f.reachable;
      trusted = f.trusted;
      managed = f.managed;
    };
    undenied = e;
    restricted = λ n h. ground (
      arith,
      h,
      contains-sort_by n (distinct (c.disabled_tools ++ policy.denied_tools)),
      contains-distinct n (c.disabled_tools ++ policy.denied_tools),
      any-append (λ y. n == y) c.disabled_tools policy.denied_tools,
    );
  }

  abbrev IsResolved : McpAdminPolicy → McpResolvedConfig → Type 0
  IsResolved policy d = (d.admin_policy ≡ policy) × All (IsPermitted d.admin_policy) d.servers

  judge-IsResolved :
      (policy : McpAdminPolicy) (c : McpServerConfig) (reason : Option String)
      (d : McpResolvedConfig)
      → IsFit c
      → admin_denial o d.admin_policy c ≡ good reason
      → IsResolved policy d
      → IsResolved policy (judge o c reason d)
  judge-IsResolved policy c none d f e v = (
    v.0,
    append-All (IsPermitted d.admin_policy) d.servers (restrict o d.admin_policy c ∷ []) v.1
        (restrict-IsPermitted d.admin_policy c f e, tt),
  )
  judge-IsResolved policy c (some reason) d f e v = v

  judge_all-IsResolved :
      (policy : McpAdminPolicy) (cs : Dict McpServerConfig) (d : McpResolvedConfig)
      → Values IsFit cs
      → IsResolved policy d
      → Returns (IsResolved policy) (judge_all o cs d)
  unfolding judge_all
  judge_all-IsResolved policy [] d f v = v
  judge_all-IsResolved policy ((name, c) ∷ cs) d (p, f) v =
      >>=-Returns (IsResolved policy) (admin_denial o d.admin_policy c)
        (λ reason. judge_all o cs (judge o c reason d))
        λ reason e.
          judge_all-IsResolved policy cs (judge o c reason d) f
            (judge-IsResolved policy c reason d p e v)

  either_way :
      (b : Bool) (policy : McpAdminPolicy) (x y : Outcome McpResolvedConfig)
      → Returns (IsResolved policy) x
      → Returns (IsResolved policy) y
      → Returns (IsResolved policy) (if b then x else y)
  either_way true policy x y p q = p
  either_way false policy x y p q = q

  conclude-IsResolved :
      (a : McpAdminConfig) (p : Parsing)
      → Values IsFit p.winners
      → Returns (IsResolved a.policy) (conclude o a p)
  unfolding conclude
  conclude-IsResolved a p v =
      let start : McpResolvedConfig = record {
        servers = [];
        blocked = p.blocked;
        diagnostics = p.diagnostics;
        admin_policy = a.policy;
      } in
      either_way (a.exists && not a.valid) a.policy _ _ (refl, tt)
        (>>=-Returns (IsResolved a.policy) (judge_all o p.winners start)
          (λ d. good (sorted_servers o d))
          λ d e.
            let w : IsResolved a.policy d =
              Returns_at (IsResolved a.policy) (judge_all o p.winners start) e
                (judge_all-IsResolved a.policy p.winners start v (refl, tt)) in
            (w.0, sort_by-All (IsPermitted d.admin_policy) (λ c. c.name) d.servers w.1))

  collect_rows-IsFit :
      (inline : Members) (p : Parsing)
      → Values IsFit p.winners
      → Returns (λ q. Values IsFit q.winners) (collect_rows o r names inline p)
  unfolding collect_rows
  collect_rows-IsFit inline p v =
      let W : Parsing → Type 0 = λ q. Values IsFit q.winners in
      >>=-Returns W (or_raise o r (parse_rows o r user names inline p)) _ λ p1 e1.
        >>=-Returns W (or_raise o r (parse_source o r names user (user_path o r) p1)) _ λ p2 e2.
          >>=-Returns W (or_raise o r (parse_source o r names project (project_path o r) p2)) _
            λ p3 e3.
              let w1 : W p1 = Returns_at W (or_raise o r (parse_rows o r user names inline p)) e1 (
                or_raise-Winning o r IsFit _
                  (parse_rows-Winning o r IsFit user names inline p (Admits-lower user) v)) in
              let w2 : W p2 =
                Returns_at W (or_raise o r (parse_source o r names user (user_path o r) p1)) e2 (
                  or_raise-Winning o r IsFit _ (
                    parse_source-Winning o r IsFit names user (user_path o r) p1 (Admits-lower user)
                      w1)) in
              let w3 : W p3 =
                Returns_at W (or_raise o r (parse_source o r names project (project_path o r) p2))
                  e3
                  (or_raise-Winning o r IsFit _ (
                    parse_source-Winning o r IsFit names project (project_path o r) p2
                      (Admits-lower project) w2)) in
              or_raise-Winning o r IsFit _ (
                parse_source-Winning o r IsFit names local (local_path o r) p3 (Admits-lower local)
                  w3)

module _ (o : Platform) (r : McpConfigResolver) (names : List String) where
  abbrev Found : McpAdminConfig × Parsing → Type 0
  Found x = Values (IsFit o r names) x.1.winners

  either-Found :
      (b : Bool) (x y : Outcome (McpAdminConfig × Parsing))
      → Returns Found x
      → Returns Found y
      → Returns Found (if b then x else y)
  either-Found true x y p q = p
  either-Found false x y p q = q

  settle_admin-Found :
      (m : Outcome McpAdminConfig) (p : Parsing)
      → Values (IsFit o r names) p.winners
      → Returns Found (settle_admin o r m p)
  settle_admin-Found (good a) p v = v
  settle_admin-Found (bad e) p v = either-Found (is_admin_error e) _ (bad e) v tt

  admin_found-Found :
      (m : Option (Outcome Value)) (p : Parsing)
      → Values (IsFit o r names) p.winners
      → Returns Found (admin_found o r m p)
  admin_found-Found none p v = v
  admin_found-Found (some raw) p v = settle_admin-Found (raw >>= parse_admin) p v

  managed-Found : Returns Found (managed o r)
  unfolding managed read_admin_config
  managed-Found =
      let W : Parsing → Type 0 = λ q. Values (IsFit o r names) q.winners in
      >>=-Returns Found (admin_found o r (o.file (admin_path o r)) nothing_parsed)
        (λ x. or_raise o r (parse_rows o r admin [] x.0.servers x.1) >>= λ p. good (x.0, p))
        λ x e.
          >>=-Returns Found (or_raise o r (parse_rows o r admin [] x.0.servers x.1))
            (λ p. good (x.0, p))
            λ p h. Returns_at W (or_raise o r (parse_rows o r admin [] x.0.servers x.1)) h (
              or_raise-Winning o r (IsFit o r names) _ (
                parse_rows-Winning o r (IsFit o r names) admin [] x.0.servers x.1
                  (Admits-admin o r names)
                  (Returns_at Found (admin_found o r (o.file (admin_path o r)) nothing_parsed) e
                    (admin_found-Found (o.file (admin_path o r)) nothing_parsed tt))))

-- Every server of a resolution runs a command or has a valid URL, as its transport demands, in clear
-- text, but for the local host, only where the row that its hash is of allows it; it comes from a project
-- only if the workspace is trusted to configure servers, and from nobody but the administrator if a row
-- of his with its name could be parsed; the managed policy does not deny it, and every tool that the
-- policy denies is disabled in it.
pub resolve-IsPermitted :
    (o : Platform) (r : McpConfigResolver) (inline : Members) (x : McpAdminConfig × Parsing)
    (d : McpResolvedConfig)
    → managed o r ≡ good x
    → resolve o r inline ≡ good d
    → (d.admin_policy ≡ x.0.policy)
      × All (IsPermitted o r (keys x.1.winners) d.admin_policy) d.servers
unfolding resolve
resolve-IsPermitted o r inline x d e h =
    let names : List String = keys x.1.winners in
    let Done : McpResolvedConfig → Type 0 =
      λ c. (c.admin_policy ≡ x.0.policy) × All (IsPermitted o r names c.admin_policy) c.servers in
    let rows : Returns (λ q. Values (IsFit o r names) q.winners)
        (collect_rows o r names inline x.1) =
      collect_rows-IsFit o r names inline x.1
        (Returns_at (Found o r names) (managed o r) e (managed-Found o r names)) in
    let both : Returns Done (collect_rows o r names inline x.1 >>= conclude o x.0) =
      >>=-Returns Done (collect_rows o r names inline x.1) (conclude o x.0) (λ p k.
        conclude-IsResolved o r names x.0 p (
          Returns_at (λ q. Values (IsFit o r names) q.winners) (collect_rows o r names inline x.1) k
            rows)) in
    Returns_at Done (collect_rows o r names inline x.1 >>= conclude o x.0)
      (ap (λ m. m >>= λ y. collect_rows o r (keys y.1.winners) inline y.1 >>= conclude o y.0)
          (sym e)
        ∙ h)
      both
