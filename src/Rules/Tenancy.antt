-- ===== src/Rules/Tenancy.antt =====
-- What a tenant's request may do to the rules: the quota, and the rules of the other tenants.
use technicolor_haze_prism.Base.{
  allowed, ◌≡◌, ◌≤◌, ◌+◌, String, Bool, false, none, some, [], ◌∷◌, Dict, text_key, if◌then◌else◌,
  ◌==◌, lookup, insert, values, length, select, arith, Bool-cases, inl, inr, max, lookup-insert,
  lookup-erase,
}
use technicolor_haze_prism.Tc.{Kernel}
use technicolor_haze_prism.Tenants.{TenantConfig, get_tenant}
use technicolor_haze_prism.Rules.{
  Daemon, Call, FirewallRule, FirewallRuleRequest, belongs, count_tenant_rules, rule_of,
  rule_signature, store, unstore,
}
use technicolor_haze_prism.Rules.Routes.{add_rule, delete_rule}
use technicolor_haze_prism.Rules.Outcomes.{Adding, Deleting, add_rule-Adding, delete_rule-Deleting}

-- How many values of a dict pass a test, after a key that is new is inserted.
select-insert :
    {V : Type 0} (p : V → Bool) (k : String) (v : V) (d : Dict String V)
    → lookup k d ≡ none
    → length (select p (values (insert k v d)))
      ≡ length (select p (values d)) + (if p v then 1 else 0)
unfolding lookup insert
select-insert p k v [] new = ground (arith)
select-insert p k v ((l, u) ∷ d) new = elim (Bool-cases (k == l)) [
  | inl here ↦ absurd (ground (arith, new, here, text_key.same_iff k l, text_key.same_iff l k))
  | inr other ↦ ground (
    arith,
    other,
    new,
    text_key.same_iff k l,
    text_key.same_iff l k,
    select-insert p k v d
        (ground (arith, new, other, text_key.same_iff k l, text_key.same_iff l k)),
  )
]

store-count :
    {W : Type 0} (hash : String) (r : FirewallRuleRequest) (c : Call) (s : Daemon W) (w : W)
    (tenant_id owner : String) (p : String × String × Bool)
    → lookup c.id s.rules_db ≡ none
    → count_tenant_rules tenant_id (store hash r c (rule_of owner r c p) (record s { world = w }))
      ≡ count_tenant_rules tenant_id s + (if owner == tenant_id then 1 else 0)
unfolding store count_tenant_rules belongs
store-count hash r c s w tenant_id owner p new =
    select-insert (λ x. belongs tenant_id x) c.id (rule_of owner r c p) s.rules_db new

-- An adding request, whoever makes it and however it ends, keeps every tenant within the larger of
-- the quota of its registration, 0 where that is negative, and the number of rules it had; the new
-- uuid is fresh.
pub add_rule-quota :
    {W : Type 0} (tc : Kernel W) (digest : String → String) (r : FirewallRuleRequest) (c : Call)
    (s : Daemon W) (tenant_id : String) (config : TenantConfig)
    → lookup c.id s.rules_db ≡ none
    → get_tenant tenant_id s.tenants ≡ some config
    → count_tenant_rules tenant_id (add_rule tc digest r c s).1
      ≤ max (allowed config.max_rules) (count_tenant_rules tenant_id s)
unfolding count_tenant_rules
add_rule-quota {W = W} tc digest r c s tenant_id config new at =
    by_adding (add_rule-Adding tc digest r c s)
  where
    by_adding :
        Adding digest r c s (add_rule tc digest r c s).0 (add_rule tc digest r c s).1
        → count_tenant_rules tenant_id (add_rule tc digest r c s).1
          ≤ max (allowed config.max_rules) (count_tenant_rules tenant_id s)
    by_adding (Adding.refused x a same) = rw (count_tenant_rules, same.same_rules) (ground (arith))
    by_adding (Adding.existing owner rule who found a t) = rw t (ground (arith))
    by_adding (Adding.adds owner other p w who known room none_yet a t) = rw t (
        ground (
          arith,
          store-count (digest (rule_signature owner r)) r c s w tenant_id owner p new,
          room,
          known,
          at,
          text_key.same_iff owner tenant_id,
        ))

-- An adding request changes no rule that is there, whoever owns it; the new uuid is fresh.
pub add_rule_keeps :
    {W : Type 0} (tc : Kernel W) (digest : String → String) (r : FirewallRuleRequest) (c : Call)
    (s : Daemon W) (id : String) (rule : FirewallRule)
    → lookup c.id s.rules_db ≡ none
    → lookup id s.rules_db ≡ some rule
    → lookup id (add_rule tc digest r c s).1.rules_db ≡ some rule
unfolding store
add_rule_keeps tc digest r c s id rule new at = by_adding (add_rule-Adding tc digest r c s)
  where
    by_adding :
        Adding digest r c s (add_rule tc digest r c s).0 (add_rule tc digest r c s).1
        → lookup id (add_rule tc digest r c s).1.rules_db ≡ some rule
    by_adding (Adding.refused x a same) = rw same.same_rules at
    by_adding (Adding.existing owner found_rule who found a t) = rw t at
    by_adding (Adding.adds owner other p w who known room none_yet a t) = rw t (
        ground (
          arith,
          lookup-insert c.id id (rule_of owner r c p) s.rules_db,
          text_key.same_iff c.id id,
          new,
          at,
        ))

-- Whoever asks for the deletion of whatever rule, and however it ends: a rule that does not belong to
-- the tenant that the header names stays as it is.
pub delete_rule_isolates :
    {W : Type 0} (tc : Kernel W) (rule_id : String) (c : Call) (s : Daemon W)
    (tenant_id id : String) (rule : FirewallRule)
    → c.header ≡ some tenant_id
    → belongs tenant_id rule ≡ false
    → lookup id s.rules_db ≡ some rule
    → lookup id (delete_rule tc rule_id c s).1.rules_db ≡ some rule
unfolding unstore
delete_rule_isolates tc rule_id c s tenant_id id rule named alien at =
    by_deleting (delete_rule-Deleting tc rule_id c s)
  where
    by_deleting :
        Deleting rule_id c s (delete_rule tc rule_id c s).0 (delete_rule tc rule_id c s).1
        → lookup id (delete_rule tc rule_id c s).1.rules_db ≡ some rule
    by_deleting (Deleting.refused x a same) = rw same.same_rules at
    by_deleting (Deleting.deletes owner own_rule w who found own a t) = rw t (
        ground (
          arith,
          lookup-erase rule_id id s.rules_db,
          text_key.same_iff rule_id id,
          text_key.same_iff id rule_id,
          named,
          who.named,
          own,
          alien,
          found,
          at,
        ))
