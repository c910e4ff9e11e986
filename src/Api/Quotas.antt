-- ===== src/Api/Quotas.antt =====
-- What each route does to the number of rules and of NAT entries of every tenant.
use technicolor_haze_prism.Base.{
  ℤ, allowed, ℕ, ◌≤◌, ◌<◌, ◌≡◌, subst, String, Bool, Option, none, some, List, Dict, text_key, ◌==◌,
  insert, erase, erase_all, stale_keys, IsDict, arith, contains-lookup, lookup-insert, lookup-erase,
  Bool-cases, inl, inr,
}
use technicolor_haze_prism.Tenants.{Tenants, TenantConfig, get_tenant, register_tenant, config_of}
use technicolor_haze_prism.Tenants
use technicolor_haze_prism.Nat.{NatEntry}
use technicolor_haze_prism.Rules.{FirewallRule, belongs}
use technicolor_haze_prism.Api.{entry_belongs, owned_by}
use technicolor_haze_prism.Api.Counts.{
  holders, holders-insert-le, holders-erase-le, holders-erase_all-le, holders-erase_all-stale_keys,
}

-- The quotas of a tenant, which has none where it is not registered.
abbrev pub quota_by : (TenantConfig → ℕ) → String → Tenants → ℕ
quota_by quota id tenants = elim (get_tenant id tenants) [ none ↦ 0 | some config ↦ quota config ]

abbrev pub rule_quota : String → Tenants → ℕ
rule_quota id tenants = quota_by (λ c. allowed c.max_rules) id tenants

abbrev pub nat_quota : String → Tenants → ℕ
nat_quota id tenants = quota_by (λ c. allowed c.max_nat_entries) id tenants

abbrev pub rules_of : String → Dict String FirewallRule → ℕ
rules_of id rules = holders (λ r. belongs id r) rules

abbrev pub entries_of : String → Dict String NatEntry → ℕ
entries_of id entries = holders (λ e. entry_belongs id e) entries

-- Every tenant is within its quota of rules, or of NAT entries.
abbrev pub RulesWithin : Dict String FirewallRule → Tenants → Type 0
RulesWithin rules tenants = (id : String) → rules_of id rules ≤ rule_quota id tenants

abbrev pub EntriesWithin : Dict String NatEntry → Tenants → Type 0
EntriesWithin entries tenants = (id : String) → entries_of id entries ≤ nat_quota id tenants

pub store-RulesWithin :
    (id owner : String) (rule : FirewallRule) (d : Dict String FirewallRule) (tenants : Tenants)
    (config : TenantConfig)
    → rule.tenant_id ≡ some owner
    → get_tenant owner tenants ≡ some config
    → rules_of owner d < allowed config.max_rules
    → RulesWithin d tenants
    → RulesWithin (insert id rule d) tenants
unfolding belongs
store-RulesWithin id owner rule d tenants config owned at room h other = ground (
  arith,
  holders-insert-le (λ r. belongs other r) id rule d,
  owned,
  at,
  room,
  h other,
  text_key.same_iff owner other,
)

pub track-EntriesWithin :
    (id owner : String) (e : NatEntry) (d : Dict String NatEntry) (tenants : Tenants)
    (config : TenantConfig)
    → get_tenant owner tenants ≡ some config
    → entries_of owner d < allowed config.max_nat_entries
    → EntriesWithin d tenants
    → EntriesWithin (insert id (owned_by owner e) d) tenants
unfolding entry_belongs
track-EntriesWithin id owner e d tenants config at room h other = ground (
  arith,
  holders-insert-le (λ r. entry_belongs other r) id (owned_by owner e) d,
  at,
  room,
  h other,
  text_key.same_iff owner other,
)

pub register-rule_quota :
    (id other : String) (ips : Option (List String)) (rules nat : ℤ) (now : ℕ) (s : Tenants)
    → rule_quota other s ≤ rule_quota other (register_tenant id ips rules nat now s).1
unfolding register_tenant get_tenant
register-rule_quota id other ips rules nat now s = ground (
  arith,
  contains-lookup id s,
  lookup-insert id other (config_of id ips rules nat now) s,
  text_key.same_iff id other,
)

pub register-nat_quota :
    (id other : String) (ips : Option (List String)) (rules nat : ℤ) (now : ℕ) (s : Tenants)
    → nat_quota other s ≤ nat_quota other (register_tenant id ips rules nat now s).1
unfolding register_tenant get_tenant
register-nat_quota id other ips rules nat now s = ground (
  arith,
  contains-lookup id s,
  lookup-insert id other (config_of id ips rules nat now) s,
  text_key.same_iff id other,
)

-- A dict without some keys, under the same registrations.
pub erase_all-RulesWithin :
    (ids : List String) (d : Dict String FirewallRule) (s : Tenants)
    → RulesWithin d s
    → RulesWithin (erase_all ids d) s
erase_all-RulesWithin ids d s h id =
    omega (arith, holders-erase_all-le (λ r. belongs id r) ids d, h id)

pub erase_all-EntriesWithin :
    (ids : List String) (d : Dict String NatEntry) (s : Tenants)
    → EntriesWithin d s
    → EntriesWithin (erase_all ids d) s
erase_all-EntriesWithin ids d s h id =
    omega (arith, holders-erase_all-le (λ e. entry_belongs id e) ids d, h id)

pub erase-EntriesWithin :
    (k : String) (d : Dict String NatEntry) (s : Tenants)
    → EntriesWithin d s
    → EntriesWithin (erase k d) s
erase-EntriesWithin k d s h id = omega (arith, holders-erase-le (λ e. entry_belongs id e) k d, h id)

pub erase-RulesWithin :
    (k : String) (d : Dict String FirewallRule) (s : Tenants)
    → RulesWithin d s
    → RulesWithin (erase k d) s
erase-RulesWithin k d s h id = omega (arith, holders-erase-le (λ r. belongs id r) k d, h id)

-- What belongs to a tenant goes with its registration.
unregister-within :
    {V : Type 0} (p : String → V → Bool) (quota : TenantConfig → ℕ) (id : String)
    (d : Dict String V) (s : Tenants)
    → IsDict d
    → ((other : String) → holders (p other) d ≤ quota_by quota other s)
    → (other : String)
    → holders (p other) (erase_all (stale_keys (p id) d) d)
      ≤ quota_by quota other (Tenants.delete_tenant id s).1
unfolding Tenants.delete_tenant get_tenant
unregister-within p quota id d s unique h other = elim (Bool-cases (id == other)) [
  | inl same ↦
      subst
        (λ o.
          holders (p o) (erase_all (stale_keys (p id) d) d)
          ≤ quota_by quota o (Tenants.delete_tenant id s).1)
        ((text_key.same_iff id other).0 same)
        (omega (arith, holders-erase_all-stale_keys (p id) d unique))
  | inr apart ↦ ground (
    arith,
    apart,
    holders-erase_all-le (p other) (stale_keys (p id) d) d,
    h other,
    contains-lookup id s,
    lookup-erase id other s,
  )
]

pub unregister-RulesWithin :
    (id : String) (d : Dict String FirewallRule) (s : Tenants)
    → IsDict d
    → RulesWithin d s
    → RulesWithin (erase_all (stale_keys (λ r. belongs id r) d) d) (Tenants.delete_tenant id s).1
unregister-RulesWithin id d s unique h =
    unregister-within (λ o r. belongs o r) (λ c. allowed c.max_rules) id d s unique h

pub unregister-EntriesWithin :
    (id : String) (d : Dict String NatEntry) (s : Tenants)
    → IsDict d
    → EntriesWithin d s
    → EntriesWithin
        (erase_all (stale_keys (λ e. entry_belongs id e) d) d)
        (Tenants.delete_tenant id s).1
unregister-EntriesWithin id d s unique h =
    unregister-within (λ o e. entry_belongs o e) (λ c. allowed c.max_nat_entries) id d s unique h
