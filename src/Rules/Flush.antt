-- ===== src/Rules/Flush.antt =====
-- The flush of a tenant's rules: it takes all of them and no other, and only a missing or hanging `tc`
-- stops it.
use technicolor_haze_prism.Base.{
  ◌≡◌, refl, ap, ◌⊎◌, inl, inr, ℕ, String, true, false, some, List, [], ◌∷◌, Dict, text_key, Result,
  ok, err, os_error, lookup, erase, member, erase_all, IsDict, Present, arith, lookup-erase_all,
  member-stale_keys, stale_keys-Present, length-stale_keys,
}
use technicolor_haze_prism.Tc.{Kernel}
use technicolor_haze_prism.Rules.{
  Daemon, Call, FirewallRule, belongs, count_tenant_rules, get_tenant_id,
}
use technicolor_haze_prism.Rules.Routes.{
  unprogram, remove_each, owned_ids, forget_ids, flush_for, flush_rules,
}
use technicolor_haze_prism.Rules.Failures.{caught, unprogram-IsTcResult}

-- How the loop over ids that are there may end: OSError, with some of these rules gone, or without an
-- exception and with all of them gone.
pub data Removing {W : Type 0} (ids : List String) (s : Daemon W) (r : Result (Unit {0}))
    (t : Daemon W) : Type 0 where
  interrupted :
      (gone : List String) (w : W)
      → ((id : String) → member id gone ≡ true → member id ids ≡ true)
      → r ≡ err os_error
      → t ≡ record s { world = w; rules_db = erase_all gone s.rules_db }
      → Removing ids s r t
  finished :
      (w : W)
      → r ≡ ok tt
      → t ≡ record s { world = w; rules_db = erase_all ids s.rules_db }
      → Removing ids s r t

module _ {W : Type 0} (tc : Kernel W) where
  -- One round of the loop, for a rule that is there.
  remove_one :
      (id : String) (ids : List String) (s : Daemon W) (rule : FirewallRule)
      → lookup id s.rules_db ≡ some rule
      → let w = (unprogram tc rule s.world).1 in
        let (r, t) = remove_each tc (id ∷ ids) s in
        ((r ≡ err os_error) × (t ≡ record s { world = w }))
        ⊎ (remove_each tc (id ∷ ids) s
            ≡ remove_each tc ids (record s { world = w; rules_db = erase id s.rules_db }))
  unfolding remove_each
  remove_one id ids s rule at =
      elim (caught (unprogram tc rule s.world).0 (unprogram-IsTcResult tc rule s.world)) [
        | inl done ↦ inr (ground (arith, at, done))
        | inr hangs ↦ inl (ground (arith, at, hangs), ground (arith, at, hangs))
      ]

  pub remove_each-Removing :
      (ids : List String) (s : Daemon W)
      → Present ids s.rules_db
      → let (r, t) = remove_each tc ids s in Removing ids s r t
  unfolding remove_each erase_all member
  remove_each-Removing [] s there = finished s.world refl refl
  remove_each-Removing (id ∷ ids) s ((rule, at), there) = elim (remove_one id ids s rule at) [
    | inl (r, t) ↦
        interrupted [] (unprogram tc rule s.world).1 (λ j h. absurd (ground (arith, h))) r t
    | inr e ↦
        by_rest
          (remove_each-Removing ids
            (record s { world = (unprogram tc rule s.world).1; rules_db = erase id s.rules_db })
            there)
          e
  ]
    where
      by_rest :
          let u = record s {
            world = (unprogram tc rule s.world).1;
            rules_db = erase id s.rules_db;
          } in
          Removing ids u (remove_each tc ids u).0 (remove_each tc ids u).1
          → remove_each tc (id ∷ ids) s ≡ remove_each tc ids u
          → Removing (id ∷ ids) s (remove_each tc (id ∷ ids) s).0 (remove_each tc (id ∷ ids) s).1
      by_rest (Removing.interrupted gone w inside r t) e =
          rw e (interrupted (id ∷ gone) w (λ j h. ground (arith, h, inside j)) r t)
      by_rest (Removing.finished w r t) e = rw e (finished w r t)

-- What a loop over the ids of a tenant does to the rules of others and to its own.
pub record Clears (tenant_id : String) (d e : Dict String FirewallRule) : Type 0 where
  pub others :
      (id : String) (rule : FirewallRule)
      → belongs tenant_id rule ≡ false
      → lookup id d ≡ some rule
      → lookup id e ≡ some rule
  pub no_more :
      (id : String) (rule : FirewallRule) → lookup id e ≡ some rule → lookup id d ≡ some rule

pub gone-Clears :
    {W : Type 0} (tenant_id : String) (gone : List String) (s : Daemon W)
    → IsDict s.rules_db
    → ((id : String) → member id gone ≡ true → member id (owned_ids tenant_id s) ≡ true)
    → Clears tenant_id s.rules_db (erase_all gone s.rules_db)
unfolding owned_ids
gone-Clears tenant_id gone s unique inside = record {
  others = λ id rule alien at. ground (
    arith,
    lookup-erase_all id gone s.rules_db,
    inside id,
    member-stale_keys (λ r. belongs tenant_id r) id s.rules_db unique,
    alien,
    at,
  );
  no_more = λ id rule at. ground (arith, lookup-erase_all id gone s.rules_db, at);
}

pub none_left :
    {W : Type 0} (tenant_id id : String) (rule : FirewallRule) (s : Daemon W)
    → IsDict s.rules_db
    → lookup id (erase_all (owned_ids tenant_id s) s.rules_db) ≡ some rule
    → belongs tenant_id rule ≡ false
unfolding owned_ids
none_left tenant_id id rule s unique at = ground (
  arith,
  lookup-erase_all id (owned_ids tenant_id s) s.rules_db,
  member-stale_keys (λ r. belongs tenant_id r) id s.rules_db unique,
  at,
)

-- The rules that a flush leaves are those of the state without some ids.
pub flush_for-rules :
    {W : Type 0} (tc : Kernel W) (tenant_id : String) (c : Call) (s : Daemon W)
    → IsDict s.rules_db
    → (gone : List String) × ((flush_for tc tenant_id c s).1.rules_db ≡ erase_all gone s.rules_db)
unfolding flush_for forget_ids owned_ids
flush_for-rules tc tenant_id c s unique = by_loop (
    remove_each-Removing tc (owned_ids tenant_id s) s
      (stale_keys-Present (λ r. belongs tenant_id r) s.rules_db unique))
  where
    by_loop :
        Removing
          (owned_ids tenant_id s)
          s
          (remove_each tc (owned_ids tenant_id s) s).0
          (remove_each tc (owned_ids tenant_id s) s).1
        → (gone : List String) × ((flush_for tc tenant_id c s).1.rules_db
            ≡ erase_all gone s.rules_db)
    by_loop (Removing.interrupted gone w inside r t) =
        (gone, ground (arith, r, ap (λ u. u.rules_db) t))
    by_loop (Removing.finished w r t) =
        (owned_ids tenant_id s, ground (arith, r, ap (λ u. u.rules_db) t))

-- How a flush by a registered tenant may end.
pub data Flushing {W : Type 0} (tenant_id : String) (s : Daemon W) (r : Result ℕ) (t : Daemon W)
    : Type 0 where
  interrupted : r ≡ err os_error → Clears tenant_id s.rules_db t.rules_db → Flushing tenant_id s r t
  flushes :
      r ≡ ok (count_tenant_rules tenant_id s)
      → Clears tenant_id s.rules_db t.rules_db
      → ((id : String) (rule : FirewallRule)
          → lookup id t.rules_db ≡ some rule
          → belongs tenant_id rule ≡ false)
      → Flushing tenant_id s r t

-- A flush takes every rule of the tenant that asks and answers how many, or is stopped by OSError; it
-- never touches a rule of another tenant, and adds none. Each id stands once in the store.
pub flush_rules-Flushing :
    {W : Type 0} (tc : Kernel W) (c : Call) (s : Daemon W) (tenant_id : String)
    → IsDict s.rules_db
    → get_tenant_id c.header s ≡ (ok tenant_id, s)
    → let (r, t) = flush_rules tc c s in Flushing tenant_id s r t
unfolding flush_rules flush_for forget_ids owned_ids count_tenant_rules
flush_rules-Flushing tc c s tenant_id unique who = by_loop (
    remove_each-Removing tc (owned_ids tenant_id s) s
      (stale_keys-Present (λ r. belongs tenant_id r) s.rules_db unique))
  where
    by_loop :
        Removing
          (owned_ids tenant_id s)
          s
          (remove_each tc (owned_ids tenant_id s) s).0
          (remove_each tc (owned_ids tenant_id s) s).1
        → let (r, t) = flush_rules tc c s in Flushing tenant_id s r t
    by_loop (Removing.interrupted gone w inside r t) =
        let left : (flush_rules tc c s).1.rules_db ≡ erase_all gone s.rules_db =
          ground (arith, who, r, ap (λ u. u.rules_db) t) in
        interrupted (ground (arith, who, r)) (rw left (gone-Clears tenant_id gone s unique inside))
    by_loop (Removing.finished w r t) =
        let left : (flush_rules tc c s).1.rules_db ≡ erase_all (owned_ids tenant_id s) s.rules_db =
          ground (arith, who, r, ap (λ u. u.rules_db) t) in
        flushes (ground (arith, who, r, length-stale_keys (λ x. belongs tenant_id x) s.rules_db))
          (rw left (gone-Clears tenant_id (owned_ids tenant_id s) s unique (λ id h. h)))
          (rw left (λ id rule. none_left tenant_id id rule s unique))
