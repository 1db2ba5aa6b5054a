-- ===== src/Mcp/Config/Refusals.antt =====
-- Files that end or empty a resolution (MCPConfigResolver.resolve of
-- agent-harness/src/agent_harness/mcp/config.py).
use general_agent_design.Common.{
  String, ◌≡◌, refl, sym, ap, Bool, true, false, not, ◌&&◌, some, List, [], if◌then◌else◌,
}
use general_agent_design.Common.Dict.{keys}
use general_agent_design.Domain.Json.{Value, Members}
use general_agent_design.Mcp.Outcome.{Failure, unicode_decode_error, Outcome, good, bad, ◌>>=◌}
use general_agent_design.Mcp.Models.{admin, user}
use general_agent_design.Mcp.Config.Managed.{McpAdminConfig, is_admin_error, parse_admin}
use general_agent_design.Mcp.Config.{
  Platform, McpConfigResolver, McpResolvedConfig, Parsing, nothing_parsed, admin_path, user_path,
  settle_admin, admin_found, read_admin_config, conclude, parse_rows, parse_found, parse_source,
  or_raise, managed, collect_rows, resolve,
}
use general_agent_design.Mcp.Config.Everywhere.{Returns, Returns_at, >>=-Returns}

abbrev IsEmpty : McpResolvedConfig → Type 0
IsEmpty d = d.servers ≡ []

abbrev IsInvalid : McpAdminConfig × Parsing → Type 0
IsInvalid x = (x.0.exists && not x.0.valid) ≡ true

first_of :
    (b : Bool) (x y : Outcome McpResolvedConfig)
    → b ≡ true
    → Returns IsEmpty x
    → Returns IsEmpty (if b then x else y)
first_of true x y h p = p
first_of false x y h p = absurd cc

conclude-IsEmpty :
    (o : Platform) (a : McpAdminConfig) (p : Parsing)
    → (a.exists && not a.valid) ≡ true
    → Returns IsEmpty (conclude o a p)
unfolding conclude
conclude-IsEmpty o a p h = first_of (a.exists && not a.valid) _ _ h refl

module _ (o : Platform) (r : McpConfigResolver) where
  settled :
      (b : Bool) (e : Failure) (x : McpAdminConfig × Parsing)
      → IsInvalid x
      → Returns IsInvalid (if b then good x else bad e)
  settled true e x i = i
  settled false e x i = tt

  refused :
      (m : Outcome McpAdminConfig) (e : Failure) (p : Parsing)
      → m ≡ bad e
      → Returns IsInvalid (settle_admin o r m p)
  refused (good a) e p h = absurd cc
  refused (bad x) e p h = settled (is_admin_error x) x _ refl

  managed-IsInvalid :
      (m : Outcome Value) (e : Failure)
      → o.file (admin_path o r) ≡ some m
      → (m >>= parse_admin) ≡ bad e
      → Returns IsInvalid (managed o r)
  unfolding managed read_admin_config
  managed-IsInvalid m e f h =
      let found : Returns IsInvalid (admin_found o r (o.file (admin_path o r)) nothing_parsed) =
        coe 0 1 (i. Returns IsInvalid (admin_found o r (sym f i) nothing_parsed))
          (refused (m >>= parse_admin) e nothing_parsed h) in
      >>=-Returns IsInvalid (admin_found o r (o.file (admin_path o r)) nothing_parsed)
        (λ x. or_raise o r (parse_rows o r admin [] x.0.servers x.1) >>= λ p. good (x.0, p))
        λ x k.
          >>=-Returns IsInvalid (or_raise o r (parse_rows o r admin [] x.0.servers x.1))
            (λ p. good (x.0, p))
            λ p l.
              Returns_at IsInvalid (admin_found o r (o.file (admin_path o r)) nothing_parsed) k
                found

  -- A managed file that cannot be read, decoded or understood leaves no server at all.
  pub resolve_closed :
      (inline : Members) (m : Outcome Value) (e : Failure) (d : McpResolvedConfig)
      → o.file (admin_path o r) ≡ some m
      → (m >>= parse_admin) ≡ bad e
      → resolve o r inline ≡ good d
      → d.servers ≡ []
  unfolding resolve
  resolve_closed inline m e d f h k =
      Returns_at IsEmpty
        (managed o r >>= λ x. collect_rows o r (keys x.1.winners) inline x.1 >>= conclude o x.0) k
        (>>=-Returns IsEmpty (managed o r) _ λ x l.
          >>=-Returns IsEmpty (collect_rows o r (keys x.1.winners) inline x.1) (conclude o x.0)
            λ p g.
              conclude-IsEmpty o x.0 p
                (Returns_at IsInvalid (managed o r) l (managed-IsInvalid m e f h)))

  -- Where a first part raises or a second part raises after it, the chain raises.
  raises :
      {A B : Type 0} (m : Outcome A) (f : A → Outcome B)
      → ((a : A) → (e : Failure) × (f a ≡ bad e))
      → (e : Failure) × ((m >>= f) ≡ bad e)
  raises (good a) f h = h a
  raises (bad e) f h = (e, refl)

  raises_first :
      {A B : Type 0} (m : Outcome A) (f : A → Outcome B)
      → (e : Failure) × (m ≡ bad e)
      → (e : Failure) × ((m >>= f) ≡ bad e)
  raises_first (good a) f (e, h) = absurd cc
  raises_first (bad x) f h = (x, refl)

  source_raises :
      (names : List String) (p : Parsing)
      → o.file (user_path o r) ≡ some (bad unicode_decode_error)
      → or_raise o r (parse_source o r names user (user_path o r) p) ≡ bad unicode_decode_error
  unfolding parse_source
  source_raises names p h =
      ap (λ m. or_raise o r (parse_found o r user names (user_path o r) m p)) h

  -- Where the user's file is no UTF-8, `resolve` raises, whatever the other files hold.
  pub resolve_undecodable :
      (inline : Members)
      → o.file (user_path o r) ≡ some (bad unicode_decode_error)
      → (e : Failure) × (resolve o r inline ≡ bad e)
  unfolding resolve collect_rows
  resolve_undecodable inline h = raises (managed o r) _ λ x.
      raises_first (collect_rows o r (keys x.1.winners) inline x.1) (conclude o x.0) (
        raises (or_raise o r (parse_rows o r user (keys x.1.winners) inline x.1)) _ λ p.
          raises_first (or_raise o r (parse_source o r (keys x.1.winners) user (user_path o r) p)) _
            (unicode_decode_error, source_raises (keys x.1.winners) p h))
