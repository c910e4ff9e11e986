-- ===== src/Api/Teardown.antt =====
-- `delete_tenant`: nothing of the tenant is left, and everything of the others is.
use technicolor_haze_prism.Base.{
  ◌≡◌, refl, ap, ◌∙◌, ℕ, String, false, none, some, List, text_key, if◌then◌else◌, Result, ok, err,
  os_error, http_error, lookup, erase, erase_all, IsDict, arith, Option-cases, inl, inr,
  stale_keys-Present, member-stale_keys, lookup-erase_all, erase_all-IsDict, lookup-erase,
  contains-lookup, length, length-stale_keys, same_refl,
}
use technicolor_haze_prism.Tc.{Kernel}
use technicolor_haze_prism.Nat.{NatEntry}
use technicolor_haze_prism.Nat.Repeat.{dicts-Inv}
use technicolor_haze_prism.Tenants.{TenantConfig, get_tenant, tenant_exists}
use technicolor_haze_prism.Tenants
use technicolor_haze_prism.Rules.{Daemon, FirewallRule, belongs, count_tenant_rules}
use technicolor_haze_prism.Rules.Routes.{remove_each, owned_ids, forget_ids}
use technicolor_haze_prism.Rules.Flush.{
  Removing, remove_each-Removing, Clears, gone-Clears, none_left,
}
use technicolor_haze_prism.Api.{
  Api, nat_part, entry_belongs, count_tenant_nat_entries, owned_nat_ids,
}
use technicolor_haze_prism.Api.Routes.{remove_nat_each, delete_rest, delete_tenant}
use technicolor_haze_prism.Api.Loops.{each-entries, each-db, each-SameRest, each-Inv}
use technicolor_haze_prism.Api.Invariant.{Consistent}

-- How the deletion of a tenant may end: the id is unknown, the loop over the rules is stopped by
-- OSError, or the tenant is gone with all that it had.
pub data TenantDeletion {W : Type 0} (tenant_id : String) (a : Api W) (r : Result (ℕ × ℕ))
    (b : Api W) : Type 0 where
  unknown :
      get_tenant tenant_id a.daemon.tenants ≡ none
      → r ≡ err (http_error 404)
      → b ≡ a
      → TenantDeletion tenant_id a r b
  interrupted :
      r ≡ err os_error
      → Clears tenant_id a.daemon.rules_db b.daemon.rules_db
      → b.nat_db ≡ a.nat_db
      → b.nat_entries_db ≡ a.nat_entries_db
      → b.daemon.tenants ≡ a.daemon.tenants
      → TenantDeletion tenant_id a r b
  gone :
      r ≡ ok (count_tenant_rules tenant_id a.daemon, count_tenant_nat_entries tenant_id a)
      → tenant_exists tenant_id b.daemon.tenants ≡ false
      → Clears tenant_id a.daemon.rules_db b.daemon.rules_db
      → ((id : String) (rule : FirewallRule)
          → lookup id b.daemon.rules_db ≡ some rule
          → belongs tenant_id rule ≡ false)
      → ((id : String) (e : NatEntry)
          → lookup id b.nat_db ≡ some e
          → entry_belongs tenant_id e ≡ false)
      → ((id : String) (e : NatEntry)
          → lookup id a.nat_entries_db ≡ some e
          → lookup id b.nat_entries_db ≡ (if entry_belongs tenant_id e then none else some e))
      → TenantDeletion tenant_id a r b

module _ {W : Type 0} (tc : Kernel W) (tenant_id : String) where
  -- What the second half leaves of the NAT entries: those of the other tenants.
  rest-entries :
      (ids : List String) (a : Api W) (id : String) (e : NatEntry)
      → IsDict a.nat_entries_db
      → lookup id a.nat_entries_db ≡ some e
      → lookup id (delete_rest tc tenant_id ids a).nat_entries_db
        ≡ (if entry_belongs tenant_id e then none else some e)
  unfolding delete_rest owned_nat_ids
  rest-entries ids a id e unique at = rw (each-entries tc (owned_nat_ids tenant_id a) a) (
      ground (
        arith,
        lookup-erase_all id (owned_nat_ids tenant_id a) a.nat_entries_db,
        member-stale_keys (λ x. entry_belongs tenant_id x) id a.nat_entries_db unique,
        at,
      ))

  -- No rule of nat_manager is left to the tenant.
  rest-db :
      (digest : String → String) (ids : List String) (a : Api W) (id : String) (e : NatEntry)
      → Consistent digest a
      → lookup id (delete_rest tc tenant_id ids a).nat_db ≡ some e
      → entry_belongs tenant_id e ≡ false
  unfolding delete_rest owned_nat_ids
  rest-db digest ids a id e good h = ground (
    arith,
    h,
    each-db tc (owned_nat_ids tenant_id a) a id,
    member-stale_keys (λ x. entry_belongs tenant_id x) id a.nat_entries_db good.unique_entries,
    good.tracked id e,
  )

  rest-unregistered :
      (ids : List String) (a : Api W)
      → tenant_exists tenant_id (delete_rest tc tenant_id ids a).daemon.tenants ≡ false
  unfolding delete_rest tenant_exists Tenants.delete_tenant forget_ids
  rest-unregistered ids a =
      let t = (remove_nat_each tc (owned_nat_ids tenant_id a) a).daemon.tenants in
      ground (
        arith,
        contains-lookup tenant_id t,
        contains-lookup tenant_id (erase tenant_id t),
        lookup-erase tenant_id tenant_id t,
        same_refl tenant_id,
      )

  pub rest-rules :
      (ids : List String) (a : Api W)
      → (delete_rest tc tenant_id ids a).daemon.rules_db ≡ a.daemon.rules_db
  unfolding delete_rest forget_ids
  rest-rules ids a = (each-SameRest tc (owned_nat_ids tenant_id a) a).rest_rules

  -- The calls of the daemon's own part leave the NAT rules as they are.
  pub daemon-Consistent :
      (digest : String → String) (a : Api W) (d : Daemon W)
      → IsDict d.rules_db
      → Consistent digest a
      → Consistent digest (record a { daemon = d })
  daemon-Consistent digest a d unique good = record {
    nat_Inv =
        dicts-Inv digest (nat_part a) (nat_part (record a { daemon = d })) refl refl good.nat_Inv;
    tracked = good.tracked;
    unique_rules = unique;
    unique_entries = good.unique_entries;
  }

  pub each-Consistent :
      (digest : String → String) (ids : List String) (a : Api W)
      → Consistent digest a
      → Consistent digest (remove_nat_each tc ids a)
  each-Consistent digest ids a good = record {
    nat_Inv = each-Inv tc digest ids a good.nat_Inv;
    tracked = λ id e h. rw (each-entries tc ids a) (
        ground (
          arith,
          h,
          each-db tc ids a id,
          lookup-erase_all id ids a.nat_entries_db,
          good.tracked id e,
        ));
    unique_rules = rw (each-SameRest tc ids a).rest_rules good.unique_rules;
    unique_entries =
        rw (each-entries tc ids a) (erase_all-IsDict ids a.nat_entries_db good.unique_entries);
  }

  rest-Consistent :
      (digest : String → String) (ids : List String) (a : Api W)
      → Consistent digest a
      → Consistent digest (delete_rest tc tenant_id ids a)
  unfolding delete_rest forget_ids
  rest-Consistent digest ids a good =
      let good_b = each-Consistent digest (owned_nat_ids tenant_id a) a good in
      daemon-Consistent digest (remove_nat_each tc (owned_nat_ids tenant_id a) a) _
        good_b.unique_rules good_b

  abbrev pub after_rules : Api W → Api W
  after_rules a = record a { daemon = (remove_each tc (owned_ids tenant_id a.daemon) a.daemon).1 }

  pub gone_eq :
      (a : Api W) (config : TenantConfig)
      → get_tenant tenant_id a.daemon.tenants ≡ some config
      → (remove_each tc (owned_ids tenant_id a.daemon) a.daemon).0 ≡ ok tt
      → delete_tenant tc tenant_id a ≡ (
        ok (length (owned_ids tenant_id a.daemon), length (owned_nat_ids tenant_id a)),
        delete_rest tc tenant_id (owned_ids tenant_id a.daemon) (after_rules a),
      )
  unfolding delete_tenant owned_nat_ids
  gone_eq a config at r = ground (arith, at, r)

  -- The deletion of a tenant is refused for an unknown id, or stopped by OSError in the loop over the
  -- rules, or it leaves nothing of the tenant: no rule, no rule of nat_manager, no NAT entry, no
  -- registration. Rules and NAT entries of other tenants stay as they are, also where it is stopped. The
  -- state is consistent.
  pub delete_tenant-TenantDeletion :
      (digest : String → String) (a : Api W)
      → Consistent digest a
      → let (r, b) = delete_tenant tc tenant_id a in TenantDeletion tenant_id a r b
  unfolding delete_tenant owned_ids owned_nat_ids count_tenant_rules count_tenant_nat_entries
  delete_tenant-TenantDeletion digest a good =
      elim (Option-cases (get_tenant tenant_id a.daemon.tenants)) [
        | inl free ↦ unknown free (ground (arith, free)) (ground (arith, free))
        | inr (config, at) ↦ by_loop config at (
            remove_each-Removing tc (owned_ids tenant_id a.daemon) a.daemon
              (stale_keys-Present (λ r. belongs tenant_id r) a.daemon.rules_db good.unique_rules))
      ]
    where
      by_loop :
          (config : TenantConfig)
          → get_tenant tenant_id a.daemon.tenants ≡ some config
          → Removing
              (owned_ids tenant_id a.daemon)
              a.daemon
              (remove_each tc (owned_ids tenant_id a.daemon) a.daemon).0
              (remove_each tc (owned_ids tenant_id a.daemon) a.daemon).1
          → let (r, b) = delete_tenant tc tenant_id a in TenantDeletion tenant_id a r b
      by_loop config at (Removing.interrupted left w inside r t) =
          let rules : (delete_tenant tc tenant_id a).1.daemon.rules_db
              ≡ erase_all left a.daemon.rules_db =
            ground (arith, at, r, ap (λ u. u.rules_db) t) in
          interrupted (ground (arith, at, r))
            (rw rules (gone-Clears tenant_id left a.daemon good.unique_rules inside))
            (ground (arith, at, r)) (ground (arith, at, r))
            (ground (arith, at, r, ap (λ u. u.tenants) t))
      by_loop config at (Removing.finished w r t) =
          let rules : (after_rules a).daemon.rules_db
              ≡ erase_all (owned_ids tenant_id a.daemon) a.daemon.rules_db =
            ap (λ u. u.rules_db) t in
          let good_b =
            daemon-Consistent digest a (after_rules a).daemon
              (rw rules (
                erase_all-IsDict (owned_ids tenant_id a.daemon) a.daemon.rules_db
                  good.unique_rules))
              good in
          let left = rest-rules (owned_ids tenant_id a.daemon) (after_rules a) ∙ rules in
          rw (gone_eq a config at r) (
            gone
              (ground (
                arith,
                length-stale_keys (λ x. belongs tenant_id x) a.daemon.rules_db,
                length-stale_keys (λ x. entry_belongs tenant_id x) a.nat_entries_db,
              ))
              (rest-unregistered (owned_ids tenant_id a.daemon) (after_rules a))
              (rw left (
                gone-Clears tenant_id (owned_ids tenant_id a.daemon) a.daemon good.unique_rules
                  (λ id h. h)))
              (λ id rule. rw left (none_left tenant_id id rule a.daemon good.unique_rules))
              (λ id e. rest-db digest (owned_ids tenant_id a.daemon) (after_rules a) id e good_b)
              (λ id e.
                rest-entries (owned_ids tenant_id a.daemon) (after_rules a) id e
                  good.unique_entries))

  pub delete_tenant-Consistent :
      (digest : String → String) (a : Api W)
      → Consistent digest a
      → Consistent digest (delete_tenant tc tenant_id a).1
  unfolding delete_tenant owned_ids
  delete_tenant-Consistent digest a good =
      elim (Option-cases (get_tenant tenant_id a.daemon.tenants)) [
        | inl free ↦ rw (delete_tenant, free) good
        | inr (config, at) ↦ by_loop config at (
            remove_each-Removing tc (owned_ids tenant_id a.daemon) a.daemon
              (stale_keys-Present (λ r. belongs tenant_id r) a.daemon.rules_db good.unique_rules))
      ]
    where
      after :
          (left : List String)
          → (after_rules a).daemon.rules_db ≡ erase_all left a.daemon.rules_db
          → Consistent digest (after_rules a)
      after left rules =
          daemon-Consistent digest a (after_rules a).daemon
            (rw rules (erase_all-IsDict left a.daemon.rules_db good.unique_rules)) good

      by_loop :
          (config : TenantConfig)
          → get_tenant tenant_id a.daemon.tenants ≡ some config
          → Removing
              (owned_ids tenant_id a.daemon)
              a.daemon
              (remove_each tc (owned_ids tenant_id a.daemon) a.daemon).0
              (remove_each tc (owned_ids tenant_id a.daemon) a.daemon).1
          → Consistent digest (delete_tenant tc tenant_id a).1
      by_loop config at (Removing.interrupted left w inside r t) =
          let stopped : (delete_tenant tc tenant_id a).1 ≡ after_rules a = ground (arith, at, r) in
          rw stopped (after left (ap (λ u. u.rules_db) t))
      by_loop config at (Removing.finished w r t) = rw (gone_eq a config at r) (
          rest-Consistent digest (owned_ids tenant_id a.daemon) (after_rules a)
            (after (owned_ids tenant_id a.daemon) (ap (λ u. u.rules_db) t)))
