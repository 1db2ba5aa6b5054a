-- ===== src/Security/Grants.antt =====
-- agent-harness/src/agent_harness/security/approval_grants.py. The digest of the arguments and the
-- sorting of the target texts are `Digest`: SHA-256 of canonical JSON, and Python's `sorted`.
pub mod Scope
use general_agent_design.Common.{
  String, Bool, true, false, not, ◌&&◌, ◌||◌, Option, none, some, List, [], ◌∷◌, ◌++◌, map, any,
  select, ◌==◌, if◌then◌else◌,
}
use general_agent_design.Common.Dict.{lookup}
use general_agent_design.Domain.Json.{Value, Arguments, present}
use general_agent_design.Security.Models.{Principal, Host, str}
use general_agent_design.Security.Rules.{list_eq, some_of}

pub record Digest : Type 0 where
  pub fingerprint : Arguments → String
  pub sorted : List String → List String

pub record GrantKey : Type 0 where
  pub thread_id : String
  pub turn_id : Option String
  pub principal_id : String
  pub tool_name : String
  pub argument_fingerprint : String
  pub target_scope : List String

abbrev pub same_turn : Option String → Option String → Bool
same_turn none none = true
same_turn (some s) (some t) = s == t
same_turn _ _ = false

-- Equality of two frozen keys, field by field.
abbrev pub same_key : GrantKey → GrantKey → Bool
same_key k j =
    k.thread_id == j.thread_id
    && (same_turn k.turn_id j.turn_id
        && (k.principal_id == j.principal_id
            && (k.tool_name == j.tool_name
                && (k.argument_fingerprint == j.argument_fingerprint
                    && list_eq k.target_scope j.target_scope))))

-- The two sets of keys, as lists without repetition.
pub record GrantStore : Type 0 where
  pub turn_grants : List GrantKey
  pub thread_grants : List GrantKey

abbrev pub no_grants : GrantStore
no_grants = record { turn_grants = []; thread_grants = [] }

abbrev pub has_key : GrantKey → List GrantKey → Bool
has_key k keys = any (λ j. same_key k j) keys

-- set.add
abbrev add : GrantKey → List GrantKey → List GrantKey
add k keys = if has_key k keys then keys else k ∷ keys

module _ (h : Host) (g : Digest) where
  unfoldable pub targets : Arguments → List String
  targets arguments = map (str h) (
      some_of (present (lookup "path" arguments))
      ++ (some_of (present (lookup "cwd" arguments))
          ++ (some_of (present (lookup "uri" arguments))
              ++ some_of (present (lookup "url" arguments)))))

  unfoldable pub key : Principal → String → Arguments → Bool → GrantKey
  unfolding targets
  key principal tool_name arguments turn_scoped = record {
    thread_id = principal.thread_id;
    turn_id = if turn_scoped then some principal.turn_id else none;
    principal_id = principal.agent_id;
    tool_name = tool_name;
    argument_fingerprint = g.fingerprint arguments;
    target_scope = g.sorted (targets arguments);
  }

  unfoldable pub grant_turn : GrantStore → Principal → String → Arguments → GrantStore
  grant_turn s principal tool_name arguments = record s {
    turn_grants = add (key principal tool_name arguments true) s.turn_grants;
  }

  unfoldable pub grant_thread : GrantStore → Principal → String → Arguments → GrantStore
  grant_thread s principal tool_name arguments = record s {
    thread_grants = add (key principal tool_name arguments false) s.thread_grants;
  }

  unfoldable pub allows : GrantStore → Principal → String → Arguments → Bool
  allows s principal tool_name arguments =
      has_key (key principal tool_name arguments true) s.turn_grants
      || has_key (key principal tool_name arguments false) s.thread_grants

unfoldable pub clear_turn : GrantStore → String → String → GrantStore
clear_turn s thread_id turn_id = record s {
  turn_grants =
      select (λ k. not (k.thread_id == thread_id && same_turn k.turn_id (some turn_id)))
        s.turn_grants;
}
