-- ===== src/Api/Shrinking.antt =====
-- The routes that take rules or entries away keep every tenant within its quotas, the deletion of a
-- tenant with its registration included.
use technicolor_haze_prism.Base.{
  ◌≡◌, refl, ap, sym, subst, String, some, List, text_key, erase_all, IsDict, arith, Option-cases,
  inl, inr, stale_keys-Present,
}
use technicolor_haze_prism.Tc.{Kernel}
use technicolor_haze_prism.Tenants.{TenantConfig, get_tenant}
use technicolor_haze_prism.Rules.{Call, belongs, unstore}
use technicolor_haze_prism.Rules.Routes.{
  delete_rule, flush_rules, flush_for, owned_ids, remove_each, forget_ids,
}
use technicolor_haze_prism.Rules.Outcomes.{Deleting, delete_rule-Deleting, caller}
use technicolor_haze_prism.Rules.Flush.{Removing, remove_each-Removing}
use technicolor_haze_prism.Api.{Api, owned_nat_ids}
use technicolor_haze_prism.Api.Routes.{
  on_daemon, delete_nat_rule, flush_nat_rules, flush_nat_for, delete_tenant, delete_rest,
  remove_nat_each,
}
use technicolor_haze_prism.Api.Outcomes.{api_caller}
use technicolor_haze_prism.Api.Deleting.{NatDeleting, delete_nat_rule-NatDeleting}
use technicolor_haze_prism.Api.Loops.{each-entries, each-SameRest}
use technicolor_haze_prism.Api.Teardown.{after_rules, gone_eq}
use technicolor_haze_prism.Api.Quotas.{
  RulesWithin, erase_all-RulesWithin, erase_all-EntriesWithin, erase-RulesWithin,
  erase-EntriesWithin, unregister-RulesWithin, unregister-EntriesWithin,
}
use technicolor_haze_prism.Api.Within.{Within, daemon-Within}

module _ {W : Type 0} (tc : Kernel W) where
  pub delete_rule-Within :
      (rule_id : String) (c : Call) (a : Api W)
      → Within a
      → Within (on_daemon (delete_rule tc rule_id c) a).1
  unfolding unstore
  delete_rule-Within rule_id c a h = by_deleting (delete_rule-Deleting tc rule_id c a.daemon)
    where
      by_deleting :
          Deleting rule_id c a.daemon
            (delete_rule tc rule_id c a.daemon).0
            (delete_rule tc rule_id c a.daemon).1
          → Within (on_daemon (delete_rule tc rule_id c) a).1
      by_deleting (Deleting.refused x r same) =
          daemon-Within tc (λ t. t) a (delete_rule tc rule_id c a.daemon).1
            (rw same.same_rules h.rules) same.same_tenants h
      by_deleting (Deleting.deletes owner rule w who found own r t) =
          daemon-Within tc (λ t. t) a (delete_rule tc rule_id c a.daemon).1
            (rw (ap (λ u. u.rules_db) t)
              (erase-RulesWithin rule_id a.daemon.rules_db a.daemon.tenants h.rules))
            (ap (λ u. u.tenants) t) h

  pub delete_nat_rule-Within :
      (rule_id : String) (c : Call) (a : Api W)
      → Within a
      → Within (delete_nat_rule tc rule_id c a).1
  delete_nat_rule-Within rule_id c a h = by_deleting (delete_nat_rule-NatDeleting tc rule_id c a)
    where
      by_deleting :
          NatDeleting tc rule_id c a
            (delete_nat_rule tc rule_id c a).0
            (delete_nat_rule tc rule_id c a).1
          → Within (delete_nat_rule tc rule_id c a).1
      by_deleting (NatDeleting.refused x r t) = rw t h
      by_deleting (NatDeleting.halfway owner entry x own r t) =
          rw t (record { rules = h.rules; entries = h.entries })
      by_deleting (NatDeleting.deletes owner entry own r t) = rw t (record {
        rules = h.rules;
        entries = erase-EntriesWithin rule_id a.nat_entries_db a.daemon.tenants h.entries;
      })

  remove_nat_each-Within :
      (ids : List String) (a : Api W) → Within a → Within (remove_nat_each tc ids a)
  remove_nat_each-Within ids a h =
      let same = each-SameRest tc ids a in
      record {
        rules = rw (same.rest_rules, same.rest_tenants) h.rules;
        entries =
            rw (each-entries tc ids a, same.rest_tenants)
              (erase_all-EntriesWithin ids a.nat_entries_db a.daemon.tenants h.entries);
      }

  pub flush_nat_rules-Within : (c : Call) (a : Api W) → Within a → Within (flush_nat_rules tc c a).1
  unfolding flush_nat_rules flush_nat_for
  flush_nat_rules-Within c a h =
      api_caller c a (λ tenant_id. flush_nat_for tc tenant_id c) (λ r b. Within b) (λ x. h)
        (λ tenant_id who.
          let b = remove_nat_each-Within (owned_nat_ids tenant_id a) a h in
          record { rules = b.rules; entries = b.entries })

  flush_for-Within :
      (tenant_id : String) (c : Call) (a : Api W)
      → IsDict a.daemon.rules_db
      → Within a
      → Within (on_daemon (flush_for tc tenant_id c) a).1
  unfolding flush_for forget_ids owned_ids
  flush_for-Within tenant_id c a unique h = by_loop (
      remove_each-Removing tc (owned_ids tenant_id a.daemon) a.daemon
        (stale_keys-Present (λ r. belongs tenant_id r) a.daemon.rules_db unique))
    where
      by_loop :
          Removing
            (owned_ids tenant_id a.daemon)
            a.daemon
            (remove_each tc (owned_ids tenant_id a.daemon) a.daemon).0
            (remove_each tc (owned_ids tenant_id a.daemon) a.daemon).1
          → Within (on_daemon (flush_for tc tenant_id c) a).1
      by_loop (Removing.interrupted gone w inside r t) =
          daemon-Within tc (λ t. t) a (flush_for tc tenant_id c a.daemon).1
            (subst (λ d. RulesWithin d a.daemon.tenants)
              (sym (ground (arith, r, ap (λ u. u.rules_db) t)))
              (erase_all-RulesWithin gone a.daemon.rules_db a.daemon.tenants h.rules))
            (ground (arith, r, ap (λ u. u.tenants) t)) h
      by_loop (Removing.finished w r t) =
          daemon-Within tc (λ t. t) a (flush_for tc tenant_id c a.daemon).1
            (subst (λ d. RulesWithin d a.daemon.tenants)
              (sym (ground (arith, r, ap (λ u. u.rules_db) t)))
              (erase_all-RulesWithin (owned_ids tenant_id a.daemon) a.daemon.rules_db
                a.daemon.tenants h.rules))
            (ground (arith, r, ap (λ u. u.tenants) t)) h

  pub flush_rules-Within :
      (c : Call) (a : Api W)
      → IsDict a.daemon.rules_db
      → Within a
      → Within (on_daemon (flush_rules tc c) a).1
  unfolding flush_rules
  flush_rules-Within c a unique h =
      caller c a.daemon (λ tenant_id. flush_for tc tenant_id c)
        (λ r d. Within (record a { daemon = d })) (λ x. h)
        (λ tenant_id who. flush_for-Within tenant_id c a unique h)

  delete_rest-Within :
      (tenant_id : String) (a : Api W)
      → IsDict a.daemon.rules_db
      → IsDict a.nat_entries_db
      → Within a
      → (ids : List String) (b : Api W)
      → b.daemon.rules_db ≡ erase_all (owned_ids tenant_id a.daemon) a.daemon.rules_db
      → b.daemon.tenants ≡ a.daemon.tenants
      → b.nat_entries_db ≡ a.nat_entries_db
      → Within (delete_rest tc tenant_id ids b)
  unfolding delete_rest forget_ids owned_ids owned_nat_ids
  delete_rest-Within tenant_id a unique unique_entries h ids b rules tenants entries =
      let same = each-SameRest tc (owned_nat_ids tenant_id b) b in
      record {
        rules =
            rw (same.rest_rules, same.rest_tenants, rules, tenants)
              (unregister-RulesWithin tenant_id a.daemon.rules_db a.daemon.tenants unique h.rules);
        entries =
            rw (each-entries tc (owned_nat_ids tenant_id b) b, same.rest_tenants, tenants, entries)
              (unregister-EntriesWithin tenant_id a.nat_entries_db a.daemon.tenants unique_entries
                h.entries);
      }

  pub delete_tenant-Within :
      (tenant_id : String) (a : Api W)
      → IsDict a.daemon.rules_db
      → IsDict a.nat_entries_db
      → Within a
      → Within (delete_tenant tc tenant_id a).1
  unfolding delete_tenant owned_ids
  delete_tenant-Within tenant_id a unique unique_entries h =
      elim (Option-cases (get_tenant tenant_id a.daemon.tenants)) [
        | inl free ↦ rw (delete_tenant, free) h
        | inr (config, at) ↦ by_loop config at (
            remove_each-Removing tc (owned_ids tenant_id a.daemon) a.daemon
              (stale_keys-Present (λ r. belongs tenant_id r) a.daemon.rules_db unique))
      ]
    where
      by_loop :
          (config : TenantConfig)
          → get_tenant tenant_id a.daemon.tenants ≡ some config
          → Removing
              (owned_ids tenant_id a.daemon)
              a.daemon
              (remove_each tc (owned_ids tenant_id a.daemon) a.daemon).0
              (remove_each tc (owned_ids tenant_id a.daemon) a.daemon).1
          → Within (delete_tenant tc tenant_id a).1
      by_loop config at (Removing.interrupted gone w inside r t) =
          let stopped : (delete_tenant tc tenant_id a).1 ≡ after_rules tc tenant_id a =
            ground (arith, at, r) in
          rw stopped (
            daemon-Within tc (λ t. t) a (remove_each tc (owned_ids tenant_id a.daemon) a.daemon).1
              (rw (ap (λ u. u.rules_db) t)
                (erase_all-RulesWithin gone a.daemon.rules_db a.daemon.tenants h.rules))
              (ap (λ u. u.tenants) t) h)
      by_loop config at (Removing.finished w r t) = rw (gone_eq tc tenant_id a config at r) (
          delete_rest-Within tenant_id a unique unique_entries h (owned_ids tenant_id a.daemon)
            (after_rules tc tenant_id a) (ap (λ u. u.rules_db) t) (ap (λ u. u.tenants) t) refl)
