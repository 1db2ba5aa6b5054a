-- ===== src/Security/Grants/Scope.antt =====
-- The reach of the grants of security/approval_grants.py.
use general_agent_design.Common.{
  String, ◌≡◌, refl, ap, Bool, true, false, not, ◌&&◌, ◌||◌, Option, none, some, List, [], ◌∷◌,
  select, ◌==◌, eq_iff, eq_refl, arith,
}
use general_agent_design.Domain.Json.{Arguments}
use general_agent_design.Security.Models.{Principal, Host}
use general_agent_design.Security.Rules.{list_eq}
use general_agent_design.Security.Grants.{
  Digest, GrantKey, GrantStore, no_grants, same_turn, same_key, has_key, add, key, grant_turn,
  grant_thread, allows, clear_turn,
}

list_eq-eq : (xs ys : List String) → list_eq xs ys ≡ true → xs ≡ ys
list_eq-eq [] [] e = refl
list_eq-eq [] (y ∷ ys) e = cc
list_eq-eq (x ∷ xs) [] e = cc
list_eq-eq (x ∷ xs) (y ∷ ys) e = ground (arith, eq_iff x y, list_eq-eq xs ys)

pub list_eq_refl : (xs : List String) → list_eq xs xs ≡ true
list_eq_refl [] = refl
list_eq_refl (x ∷ xs) = ground (arith, eq_refl x, list_eq_refl xs)

same_turn-eq : (s t : Option String) → same_turn s t ≡ true → s ≡ t
same_turn-eq none none e = refl
same_turn-eq none (some t) e = cc
same_turn-eq (some s) none e = cc
same_turn-eq (some s) (some t) e = ground (arith, eq_iff s t)

same_turn_refl : (s : Option String) → same_turn s s ≡ true
same_turn_refl none = refl
same_turn_refl (some s) = eq_refl s

same_key-eq : (k j : GrantKey) → same_key k j ≡ true → k ≡ j
same_key-eq k j e = ground (
  arith,
  eq_iff k.thread_id j.thread_id,
  same_turn-eq k.turn_id j.turn_id,
  eq_iff k.principal_id j.principal_id,
  eq_iff k.tool_name j.tool_name,
  eq_iff k.argument_fingerprint j.argument_fingerprint,
  list_eq-eq k.target_scope j.target_scope,
)

same_key_refl : (k : GrantKey) → same_key k k ≡ true
same_key_refl k = ground (
  arith,
  eq_refl k.thread_id,
  same_turn_refl k.turn_id,
  eq_refl k.principal_id,
  eq_refl k.tool_name,
  eq_refl k.argument_fingerprint,
  list_eq_refl k.target_scope,
)

has_key-same :
    (k j : GrantKey) (keys : List GrantKey) → same_key j k ≡ true → has_key j keys ≡ has_key k keys
has_key-same k j keys e = ap (λ x. has_key x keys) (same_key-eq j k e)

-- An added key is found where its equal is looked for; all other answers stay.
has_key-add :
    (k j : GrantKey) (keys : List GrantKey)
    → has_key j (add k keys) ≡ (same_key j k || has_key j keys)
has_key-add k j keys = ground (arith, has_key-same k j keys)

has_key-select :
    (p : GrantKey → Bool) (k : GrantKey) (keys : List GrantKey)
    → has_key k (select p keys) ≡ (p k && has_key k keys)
has_key-select p k [] = ground arith
has_key-select p k (j ∷ keys) = ground (arith, has_key-select p k keys, same_key-eq k j)

module _ (h : Host) (g : Digest) (s : GrantStore) (p q : Principal) (t u : String)
    (a b : Arguments) where
  -- After a grant for the turn, a call is allowed if it was before, or if its own key for the turn is
  -- the granted one.
  pub allows-grant_turn :
      allows h g (grant_turn h g s p t a) q u b
      ≡ (same_key (key h g q u b true) (key h g p t a true) || allows h g s q u b)
  unfolding allows grant_turn
  allows-grant_turn =
      ground (arith, has_key-add (key h g p t a true) (key h g q u b true) s.turn_grants)

  -- After a grant for the thread, a call is allowed if it was before, or if its own key without the turn is
  -- the granted one.
  pub allows-grant_thread :
      allows h g (grant_thread h g s p t a) q u b
      ≡ (same_key (key h g q u b false) (key h g p t a false) || allows h g s q u b)
  unfolding allows grant_thread
  allows-grant_thread =
      ground (arith, has_key-add (key h g p t a false) (key h g q u b false) s.thread_grants)

  -- A call that a single grant for a turn allows has the thread, the turn, the agent, the tool and the
  -- fingerprint of the arguments of the granted one.
  grant_turn_narrow :
      allows h g (grant_turn h g no_grants p t a) q u b ≡ true
      → (q.thread_id ≡ p.thread_id)
        × (q.turn_id ≡ p.turn_id)
        × (q.agent_id ≡ p.agent_id)
        × (u ≡ t)
        × (g.fingerprint b ≡ g.fingerprint a)
  unfolding allows grant_turn key
  grant_turn_narrow e = ground (
    arith,
    eq_iff q.thread_id p.thread_id,
    eq_iff q.turn_id p.turn_id,
    eq_iff q.agent_id p.agent_id,
    eq_iff u t,
    eq_iff (g.fingerprint b) (g.fingerprint a),
  )

module _ (h : Host) (g : Digest) (s : GrantStore) (q : Principal) (u : String) (b : Arguments) where
  -- Clearing a turn takes the turn's own grants away from its principals, and no other.
  pub allows-clear_turn :
      (thread_id turn_id : String)
      → allows h g (clear_turn s thread_id turn_id) q u b ≡ (
          (not (q.thread_id == thread_id && q.turn_id == turn_id)
            && has_key (key h g q u b true) s.turn_grants)
          || has_key (key h g q u b false) s.thread_grants)
  unfolding allows clear_turn key
  allows-clear_turn thread_id turn_id = ground (
    arith,
    has_key-select (λ k. not (k.thread_id == thread_id && same_turn k.turn_id (some turn_id)))
        (key h g q u b true) s.turn_grants,
  )
