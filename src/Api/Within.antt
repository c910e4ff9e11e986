-- ===== src/Api/Within.antt =====
-- Every tenant is within its quotas, and the adding routes keep it.
use technicolor_haze_prism.Base.{◌≡◌, refl, ap, String, text_key}
use technicolor_haze_prism.Tc.{Kernel}
use technicolor_haze_prism.Rules.{
  Daemon, Call, FirewallRuleRequest, count_tenant_rules, rule_of, store,
}
use technicolor_haze_prism.Rules.Routes.{add_rule}
use technicolor_haze_prism.Rules.Outcomes.{Adding, add_rule-Adding}
use technicolor_haze_prism.Api.{Api, count_tenant_nat_entries, track}
use technicolor_haze_prism.Api.Routes.{add_nat_rule}
use technicolor_haze_prism.Api.Outcomes.{NatAdding, add_nat_rule-NatAdding}
use technicolor_haze_prism.Api.Quotas.{
  RulesWithin, EntriesWithin, store-RulesWithin, track-EntriesWithin,
}

pub record Within {W : Type 0} (a : Api W) : Type 0 where
  pub rules : RulesWithin a.daemon.rules_db a.daemon.tenants
  pub entries : EntriesWithin a.nat_entries_db a.daemon.tenants

module _ {W : Type 0} (tc : Kernel W) (digest : String → String) where
  pub add_rule-RulesWithin :
      (r : FirewallRuleRequest) (c : Call) (s : Daemon W)
      → RulesWithin s.rules_db s.tenants
      → RulesWithin (add_rule tc digest r c s).1.rules_db s.tenants
  unfolding store count_tenant_rules
  add_rule-RulesWithin r c s h = by_adding (add_rule-Adding tc digest r c s)
    where
      by_adding :
          Adding digest r c s (add_rule tc digest r c s).0 (add_rule tc digest r c s).1
          → RulesWithin (add_rule tc digest r c s).1.rules_db s.tenants
      by_adding (Adding.refused x a same) = rw same.same_rules h
      by_adding (Adding.existing owner rule who found a t) = rw t h
      by_adding (Adding.adds owner config p w who known room new a t) = rw t (
          store-RulesWithin c.id owner (rule_of owner r c p) s.rules_db s.tenants config refl known
            room h)

  pub add_rule-tenants :
      (r : FirewallRuleRequest) (c : Call) (s : Daemon W)
      → (add_rule tc digest r c s).1.tenants ≡ s.tenants
  unfolding store
  add_rule-tenants r c s = by_adding (add_rule-Adding tc digest r c s)
    where
      by_adding :
          Adding digest r c s (add_rule tc digest r c s).0 (add_rule tc digest r c s).1
          → (add_rule tc digest r c s).1.tenants ≡ s.tenants
      by_adding (Adding.refused x a same) = same.same_tenants
      by_adding (Adding.existing owner rule who found a t) = ap (λ u. u.tenants) t
      by_adding (Adding.adds owner config p w who known room new a t) = ap (λ u. u.tenants) t

  -- The whole state after a call of the daemon's own part.
  pub daemon-Within :
      (a : Api W) (d : Daemon W)
      → RulesWithin d.rules_db a.daemon.tenants
      → d.tenants ≡ a.daemon.tenants
      → Within a
      → Within (record a { daemon = d })
  daemon-Within a d rules same h = record { rules = rw same rules; entries = rw same h.entries }

  pub add_nat_rule-Within :
      (q : _) (c : Call) (a : Api W) → Within a → Within (add_nat_rule tc digest q c a).1
  unfolding track count_tenant_nat_entries
  add_nat_rule-Within q c a h = by_adding (add_nat_rule-NatAdding tc digest q c a)
    where
      by_adding :
          NatAdding tc digest q c a
            (add_nat_rule tc digest q c a).0
            (add_nat_rule tc digest q c a).1
          → Within (add_nat_rule tc digest q c a).1
      by_adding (NatAdding.refused x r same) = record {
        rules =
            rw (ap (λ d. d.rules_db) same.same_daemon, ap (λ d. d.tenants) same.same_daemon)
              h.rules;
        entries = rw (same.same_entries, ap (λ d. d.tenants) same.same_daemon) h.entries;
      }
      by_adding (NatAdding.adds owner config entry who known room answered r t) = rw t (record {
        rules = h.rules;
        entries =
            track-EntriesWithin entry.id owner entry a.nat_entries_db a.daemon.tenants config known
              room h.entries;
      })
