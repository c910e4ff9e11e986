-- ===== src/Api/Usage.antt =====
-- What `get_tenant` of main.py reports of a tenant's quotas, in every state that the daemon reaches.
use technicolor_haze_prism.Base.{
  ℤ, negsuc, allowed, ℕ, zero, suc, ◌+◌, ◌-◌, ◌≤◌, ◌≡◌, refl, ap, ◌∙◌, String, some, pos, text_key,
  arith, ok,
}
use technicolor_haze_prism.Tc.{Kernel}
use technicolor_haze_prism.Snat.{SnatState}
use technicolor_haze_prism.Tenants
use technicolor_haze_prism.Tenants.{TenantConfig}
use technicolor_haze_prism.Rules.{Daemon, count_tenant_rules}
use technicolor_haze_prism.Api.{Api, count_tenant_nat_entries}
use technicolor_haze_prism.Api.History.{
  Step, adding_nat, deleting_nat, flushing_nat, adding_rule, deleting_rule, flushing_rules,
  deleting_tenant, registering, elsewhere, Reaches, here, then_step, started, Reaches-Consistent,
  start-Consistent,
}
use technicolor_haze_prism.Api.Reports.{Usage, get_tenant, ◌-ℤ◌, difference}
use technicolor_haze_prism.Api.Within.{
  Within, daemon-Within, add_rule-RulesWithin, add_rule-tenants, add_nat_rule-Within,
}
use technicolor_haze_prism.Api.Shrinking.{
  delete_rule-Within, delete_nat_rule-Within, flush_nat_rules-Within, flush_rules-Within,
  delete_tenant-Within,
}
use technicolor_haze_prism.Api.Quotas.{register-rule_quota, register-nat_quota}
use technicolor_haze_prism.Api.Invariant.{Consistent}

module _ {W : Type 0} (tc : Kernel W) (digest : String → String) where
  Step-Within : {a b : Api W} → Step tc digest a b → Consistent digest a → Within a → Within b
  Step-Within {a} (adding_nat q c fresh) good h = add_nat_rule-Within tc digest q c a h
  Step-Within {a} (deleting_nat rule_id c) good h = delete_nat_rule-Within tc rule_id c a h
  Step-Within {a} (flushing_nat c) good h = flush_nat_rules-Within tc c a h
  Step-Within {a} (adding_rule r c) good h =
      daemon-Within tc digest a _ (add_rule-RulesWithin tc digest r c a.daemon h.rules)
        (add_rule-tenants tc digest r c a.daemon) h
  Step-Within {a} (deleting_rule rule_id c) good h = delete_rule-Within tc rule_id c a h
  Step-Within {a} (flushing_rules c) good h = flush_rules-Within tc c a good.unique_rules h
  Step-Within {a} (deleting_tenant tenant_id) good h =
      delete_tenant-Within tc tenant_id a good.unique_rules good.unique_entries h
  Step-Within {a} (registering tenant_id ips max_rules max_nat_entries now) good h = record {
    rules = λ id. omega (
      arith,
      h.rules id,
      register-rule_quota tenant_id id ips max_rules max_nat_entries now a.daemon.tenants,
    );
    entries = λ id. omega (
      arith,
      h.entries id,
      register-nat_quota tenant_id id ips max_rules max_nat_entries now a.daemon.tenants,
    );
  }
  Step-Within {a} (elsewhere w) good h = record { rules = h.rules; entries = h.entries }

  Reaches-Within : {a b : Api W} → Reaches tc digest a b → Consistent digest a → Within a → Within b
  Reaches-Within here good h = h
  Reaches-Within (then_step path step) good h =
      Step-Within step (Reaches-Consistent tc digest path good) (Reaches-Within path good h)

difference-pos : (m n : ℕ) → n ≤ m → difference m n ≡ pos (m - n)
difference-pos m zero h = ap pos (omega arith)
difference-pos zero (suc n) h = ground (arith, h)
difference-pos (suc m) (suc n) h = difference-pos m n (omega (arith, h)) ∙ ap pos (omega arith)

-- What is used and what remains of a quota: both make it up and what remains is not negative, or the
-- quota is negative itself, nothing is used, and the quota is what remains.
pub data Remains (quota : ℤ) (used : ℕ) (left : ℤ) : Type 0 where
  within : (m k : ℕ) → quota ≡ pos m → left ≡ pos k → used + k ≡ m → Remains quota used left
  below_zero : (m : ℕ) → quota ≡ negsuc m → used ≡ 0 → left ≡ quota → Remains quota used left

difference-Remains : (q : ℤ) (n : ℕ) → n ≤ allowed q → Remains q n (q -ℤ n)
difference-Remains (pos m) n h = within m (m - n) refl (difference-pos m n h) (omega (arith, h))
difference-Remains (negsuc m) n h =
    let nothing : n ≡ 0 = omega (arith, h) in
    below_zero m refl nothing (rw nothing (ap negsuc (omega arith)))

pub record InQuota (config : TenantConfig) (u : Usage) : Type 0 where
  pub of_tenant : u.config ≡ config
  pub rules_remain : Remains config.max_rules u.rules u.rules_remaining
  pub entries_remain : Remains config.max_nat_entries u.nat_entries u.nat_entries_remaining

module _ {W : Type 0} (tc : Kernel W) (digest : String → String) (d : Daemon W) (ports : SnatState)
    (b : Api W) (path : Reaches tc digest (started d ports) b) where
  reached : Within b
  reached =
      Reaches-Within tc digest path (start-Consistent digest d ports)
        (record { rules = λ id. omega arith; entries = λ id. omega arith })

-- In every state that the routes of rules, NAT and tenants reach from the start, `get_tenant` answers
-- for a registered tenant what it uses and what remains of each quota: both make up the quota and what
-- remains is not negative, or the quota was registered negative, and then nothing is used and the
-- quota is what remains.
pub Reaches-InQuota :
    {W : Type 0} (tc : Kernel W) (digest : String → String) (d : Daemon W) (ports : SnatState)
    (b : Api W) (tenant_id : String) (config : TenantConfig)
    → Reaches tc digest (started d ports) b
    → Tenants.get_tenant tenant_id b.daemon.tenants ≡ some config
    → (u : Usage) × (get_tenant tenant_id b ≡ (ok u, b)) × InQuota config u
unfolding get_tenant count_tenant_rules count_tenant_nat_entries
Reaches-InQuota tc digest d ports b tenant_id config path at =
    let within = reached tc digest d ports b path in
    let rules : count_tenant_rules tenant_id b.daemon ≤ allowed config.max_rules =
      ground (arith, at, within.rules tenant_id) in
    let entries : count_tenant_nat_entries tenant_id b ≤ allowed config.max_nat_entries =
      ground (arith, at, within.entries tenant_id) in
    (
      record {
        config = config;
        rules = count_tenant_rules tenant_id b.daemon;
        rules_remaining = config.max_rules -ℤ count_tenant_rules tenant_id b.daemon;
        nat_entries = count_tenant_nat_entries tenant_id b;
        nat_entries_remaining = config.max_nat_entries -ℤ count_tenant_nat_entries tenant_id b;
      },
      rw (get_tenant, at) refl,
      record {
        of_tenant = refl;
        rules_remain =
            difference-Remains config.max_rules (count_tenant_rules tenant_id b.daemon) rules;
        entries_remain =
            difference-Remains config.max_nat_entries (count_tenant_nat_entries tenant_id b)
              entries;
      },
    )
