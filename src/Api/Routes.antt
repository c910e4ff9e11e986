-- ===== src/Api/Routes.antt =====
-- The NAT routes and `delete_tenant` of main.py, in their order.
use technicolor_haze_prism.Base.{
  at_least, ℕ, String, not, none, some, List, [], ◌∷◌, text_key, if◌then◌else◌, Action, Result, ok,
  err, http_error, attribute_error, lookup, erase, values, select, length, ◌>>=◌, ◌>>◌,
}
use technicolor_haze_prism.Tc.{Kernel}
use technicolor_haze_prism.Nat.{NatEntry, Target}
use technicolor_haze_prism.Nat.Add.{Request, snat, dnat, forward, add_nat}
use technicolor_haze_prism.Nat.Operations.{remove_nat}
use technicolor_haze_prism.Audit.{log_nat_deleted, log_nat_flushed}
use technicolor_haze_prism.Tenants.{get_tenant}
use technicolor_haze_prism.Tenants
use technicolor_haze_prism.Rules.{Daemon, Call, get_tenant_id}
use technicolor_haze_prism.Rules.Routes.{except_tc, owned_ids, remove_each, forget_ids}
use technicolor_haze_prism.Api.{
  Api, nat_part, with_nat, entry_belongs, count_tenant_nat_entries, owned_nat_ids, draw_of,
  owned_by, track,
}

-- A call on the part of main.py's own dicts.
abbrev pub on_daemon : {W A : Type 0} → Action (Daemon W) A → Action (Api W) A
on_daemon m a = let (r, d) = m a.daemon in (r, record a { daemon = d })

module _ {W : Type 0} (tc : Kernel W) (digest : String → String) where
  -- The three adding routes once the tenant is known: the quota, the call of nat_manager, the tenant.
  unfoldable pub add_nat_for : Request → Call → String → Action (Api W) NatEntry
  add_nat_for q c tenant_id a = elim (get_tenant tenant_id a.daemon.tenants) [
    | none ↦ (err attribute_error, a)
    | some config ↦
        if at_least (count_tenant_nat_entries tenant_id a) config.max_nat_entries
        then (err (http_error 429), a)
        else let (r, n) = add_nat tc digest q (draw_of c) (nat_part a) in
          elim (except_tc r (err (http_error 500))) as (λ _. Result NatEntry × Api W) [
            | ok entry ↦ (ok (owned_by tenant_id entry), track q c tenant_id entry (with_nat n a))
            | err x ↦ (err x, with_nat n a)
          ]
  ]

  unfoldable pub add_nat_rule : Request → Call → Action (Api W) NatEntry
  add_nat_rule q c = do tenant_id ← on_daemon (get_tenant_id c.header); add_nat_for q c tenant_id

  unfoldable pub add_snat_rule : String → String → String → Call → Action (Api W) NatEntry
  add_snat_rule private_ip public_ip mode c = add_nat_rule (snat private_ip public_ip mode) c

  unfoldable pub add_dnat_rule : Target → Call → Action (Api W) NatEntry
  add_dnat_rule t c = add_nat_rule (dnat t) c

  unfoldable pub add_port_forward_rule : Target → Call → Action (Api W) NatEntry
  add_port_forward_rule t c = add_nat_rule (forward t) c

module _ {W : Type 0} (tc : Kernel W) where
  -- `delete_nat_rule` once the tenant is known.
  unfoldable pub delete_nat_for : String → String → Call → Action (Api W) (Unit {0})
  delete_nat_for tenant_id rule_id c a = elim (lookup rule_id a.nat_entries_db) [
    | none ↦ (err (http_error 404), a)
    | some entry ↦
        if not (entry_belongs tenant_id entry)
        then (err (http_error 403), a)
        else let (r, n) = remove_nat tc rule_id (nat_part a) in
          let b = with_nat n a in
          elim (except_tc r (err (http_error 500))) as (λ _. Result (Unit {0}) × Api W) [
            | ok done ↦ (
              ok tt,
              record b {
                daemon = record b.daemon {
                  audit = (log_nat_deleted rule_id c.source_ip c.timestamp b.daemon.audit).1;
                };
                nat_entries_db = erase rule_id b.nat_entries_db;
              },
            )
            | err x ↦ (err x, b)
          ]
  ]

  unfoldable pub delete_nat_rule : String → Call → Action (Api W) (Unit {0})
  delete_nat_rule rule_id c = do
    tenant_id ← on_daemon (get_tenant_id c.header)
    delete_nat_for tenant_id rule_id c

  -- The loop over the NAT ids of a tenant, where every exception is only logged.
  unfoldable pub remove_nat_each : List String → Api W → Api W
  remove_nat_each [] a = a
  remove_nat_each (nat_id ∷ ids) a =
      let b = with_nat (remove_nat tc nat_id (nat_part a)).1 a in
      remove_nat_each ids (record b { nat_entries_db = erase nat_id b.nat_entries_db })

  -- `flush_nat_rules` once the tenant is known.
  unfoldable pub flush_nat_for : String → Call → Action (Api W) ℕ
  flush_nat_for tenant_id c a =
      let ids = owned_nat_ids tenant_id a in
      let b = remove_nat_each ids a in
      (
        ok (length ids),
        record b {
          daemon = record b.daemon {
            audit = (log_nat_flushed (length ids) c.source_ip c.timestamp b.daemon.audit).1;
          };
        },
      )

  unfoldable pub flush_nat_rules : Call → Action (Api W) ℕ
  flush_nat_rules c = do tenant_id ← on_daemon (get_tenant_id c.header); flush_nat_for tenant_id c

  -- What `delete_tenant` does when the loop over the rules is through.
  unfoldable pub delete_rest : String → List String → Api W → Api W
  delete_rest tenant_id rule_ids a =
      let b = remove_nat_each (owned_nat_ids tenant_id a) a in
      let d = forget_ids rule_ids b.daemon in
      record b { daemon = record d { tenants = (Tenants.delete_tenant tenant_id d.tenants).1 } }

  -- The answer is the numbers of rules and of NAT entries that were flushed.
  unfoldable pub delete_tenant : String → Action (Api W) (ℕ × ℕ)
  delete_tenant tenant_id a = elim (get_tenant tenant_id a.daemon.tenants) [
    | none ↦ (err (http_error 404), a)
    | some config ↦
        let ids = owned_ids tenant_id a.daemon in
        (do
          on_daemon (remove_each tc ids)
          nat_ids ← (λ b. (ok (owned_nat_ids tenant_id b), delete_rest tenant_id ids b))
          (λ b. (ok (length ids, length nat_ids), b)))
          a
  ]

unfoldable pub list_nat_rules : {W : Type 0} → Call → Action (Api W) (List NatEntry)
list_nat_rules c = do
  tenant_id ← on_daemon (get_tenant_id c.header)
  (λ a. (ok (select (λ e. entry_belongs tenant_id e) (values a.nat_entries_db)), a))
