-- ===== src/Rules/Repeat.antt =====
-- A request for a rule that is made again.
use technicolor_haze_prism.Base.{
  ◌≡◌, refl, ap, String, false, Option, none, some, text_key, ◌==◌, ok, arith, Bool-cases, inl, inr,
  lookup-insert_self,
}
use technicolor_haze_prism.Tc.{Kernel}
use technicolor_haze_prism.Rules.{
  Daemon, Call, FirewallRule, FirewallRuleRequest, rule_signature, find_existing_rule, keyed_rule,
  live_rule, index_key, rule_of, store, get_tenant_id,
}
use technicolor_haze_prism.Rules.Routes.{already_exists, created, add_rule, add_for}
use technicolor_haze_prism.Rules.Outcomes.{IsCaller, Adding, add_rule-Adding}

-- A stored rule is found by the request that it was stored for, by its key or by its signature.
stored-found :
    {W : Type 0} (hash : String) (r : FirewallRuleRequest) (c : Call) (rule : FirewallRule)
    (s : Daemon W)
    → (rule.id == "") ≡ false
    → find_existing_rule hash r.idempotency_key (store hash r c rule s) ≡ some rule
unfolding find_existing_rule store keyed_rule live_rule index_key
stored-found {W = W} hash r c rule s name = go r.idempotency_key refl
  where
    go :
        (key : Option String)
        → r.idempotency_key ≡ key
        → find_existing_rule hash r.idempotency_key (store hash r c rule s) ≡ some rule
    go none e = ground (
      arith,
      e,
      name,
      lookup-insert_self hash rule.id s.rule_signature_index,
      lookup-insert_self rule.id rule s.rules_db,
    )
    go (some key) e = elim (Bool-cases (key == "")) [
      | inl empty ↦ ground (
        arith,
        e,
        empty,
        name,
        lookup-insert_self hash rule.id s.rule_signature_index,
        lookup-insert_self rule.id rule s.rules_db,
      )
      | inr given ↦ ground (
        arith,
        e,
        given,
        name,
        lookup-insert_self key rule.id s.idempotency_key_index,
        lookup-insert_self rule.id rule s.rules_db,
      )
    ]

-- A registered caller whose request finds a live rule is answered with it.
found-answered :
    {W : Type 0} (tc : Kernel W) (digest : String → String) (r : FirewallRuleRequest) (c : Call)
    (t : Daemon W) (tenant_id : String) (rule : FirewallRule)
    → get_tenant_id c.header t ≡ (ok tenant_id, t)
    → find_existing_rule (digest (rule_signature tenant_id r)) r.idempotency_key t ≡ some rule
    → add_rule tc digest r c t ≡ (ok (already_exists rule), t)
unfolding add_rule add_for
found-answered tc digest r c t tenant_id rule who found = ground (arith, who, found)

-- A caller is known to every state with the same tenants, by any call with the same header.
pub still_known :
    {W : Type 0} (c d : Call) (s t : Daemon W) (tenant_id : String)
    → IsCaller c tenant_id s
    → d.header ≡ c.header
    → t.tenants ≡ s.tenants
    → get_tenant_id d.header t ≡ (ok tenant_id, t)
unfolding get_tenant_id
still_known c d s t tenant_id who header tenants =
    ground (arith, who.named, who.given, who.registered, header, tenants)

-- A request whose rule was created is, when the same tenant makes it again, answered with that rule and
-- changes nothing, no command included; the uuid of the rule is not empty.
pub add_rule_idempotent :
    {W : Type 0} (tc : Kernel W) (digest : String → String) (r : FirewallRuleRequest) (c d : Call)
    (s : Daemon W) (rule : FirewallRule)
    → (c.id == "") ≡ false
    → d.header ≡ c.header
    → (add_rule tc digest r c s).0 ≡ ok (created rule)
    → add_rule tc digest r d (add_rule tc digest r c s).1
      ≡ (ok (already_exists rule), (add_rule tc digest r c s).1)
unfolding store
add_rule_idempotent tc digest r c d s rule name header h =
    by_adding (add_rule-Adding tc digest r c s)
  where
    by_adding :
        Adding digest r c s (add_rule tc digest r c s).0 (add_rule tc digest r c s).1
        → add_rule tc digest r d (add_rule tc digest r c s).1
          ≡ (ok (already_exists rule), (add_rule tc digest r c s).1)
    by_adding (Adding.refused x a same) = absurd (cc)
    by_adding (Adding.existing tenant_id other who found a t) = absurd (ground (arith, a, h))
    by_adding (Adding.adds tenant_id config p w who at room new a t) =
        let is_rule : rule ≡ rule_of tenant_id r c p = ground (arith, a, h) in
        found-answered tc digest r d _ tenant_id rule
          (still_known c d s _ tenant_id who header (ap (λ u. u.tenants) t))
          (rw (t, is_rule)
            (stored-found (digest (rule_signature tenant_id r)) r c (rule_of tenant_id r c p)
              (record s { world = w }) name))
