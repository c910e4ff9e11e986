-- ===== src/Api/Deleting.antt =====
-- How `delete_nat_rule` may end. A command that raises leaves the entry in one dict of two.
use technicolor_haze_prism.Base.{
  ◌≡◌, refl, inl, inr, String, true, some, text_key, Result, ok, err, Exn, http_error, lookup,
  erase, Bool-cases, Option-cases,
}
use technicolor_haze_prism.Tc.{Kernel}
use technicolor_haze_prism.Nat.{NatEntry}
use technicolor_haze_prism.Nat.Operations.{remove_nat}
use technicolor_haze_prism.Audit.{log_nat_deleted}
use technicolor_haze_prism.Rules.{Call}
use technicolor_haze_prism.Rules.Outcomes.{IsCaller}
use technicolor_haze_prism.Rules.Routes.{except_tc}
use technicolor_haze_prism.Api.{Api, nat_part, with_nat, entry_belongs}
use technicolor_haze_prism.Api.Routes.{delete_nat_for, delete_nat_rule}
use technicolor_haze_prism.Api.Outcomes.{api_caller}

-- The entry that a deletion is about.
pub record IsOwn {W : Type 0} (rule_id : String) (c : Call) (a : Api W) (tenant_id : String)
    (entry : NatEntry) : Type 0 where
  pub by_caller : IsCaller c tenant_id a.daemon
  pub stored : lookup rule_id a.nat_entries_db ≡ some entry
  pub owned : entry_belongs tenant_id entry ≡ true

-- What is left when the removal is through.
abbrev pub deleted : {W : Type 0} → String → Call → Api W → Api W
deleted rule_id c b = record b {
  daemon = record b.daemon {
    audit = (log_nat_deleted rule_id c.source_ip c.timestamp b.daemon.audit).1;
  };
  nat_entries_db = erase rule_id b.nat_entries_db;
}

pub data NatDeleting {W : Type 0} (tc : Kernel W) (rule_id : String) (c : Call) (a : Api W)
    (r : Result (Unit {0})) (b : Api W) : Type 0 where
  refused : (x : Exn) → r ≡ err x → b ≡ a → NatDeleting tc rule_id c a r b
  halfway :
      (tenant_id : String) (entry : NatEntry) (x : Exn)
      → IsOwn rule_id c a tenant_id entry
      → r ≡ err x
      → b ≡ with_nat (remove_nat tc rule_id (nat_part a)).1 a
      → NatDeleting tc rule_id c a r b
  deletes :
      (tenant_id : String) (entry : NatEntry)
      → IsOwn rule_id c a tenant_id entry
      → r ≡ ok tt
      → b ≡ deleted rule_id c (with_nat (remove_nat tc rule_id (nat_part a)).1 a)
      → NatDeleting tc rule_id c a r b

module _ {W : Type 0} (tc : Kernel W) (rule_id : String) (c : Call) (a : Api W) where
  delete_nat_owned :
      (tenant_id : String) (entry : NatEntry)
      → IsOwn rule_id c a tenant_id entry
      → let (r, b) = delete_nat_for tc tenant_id rule_id c a in NatDeleting tc rule_id c a r b
  unfolding delete_nat_for
  delete_nat_owned tenant_id entry own =
      go (except_tc (remove_nat tc rule_id (nat_part a)).0 (err (http_error 500))) refl
    where
      go :
          (x : Result (Unit {0}))
          → except_tc (remove_nat tc rule_id (nat_part a)).0 (err (http_error 500)) ≡ x
          → let (r, b) = delete_nat_for tc tenant_id rule_id c a in NatDeleting tc rule_id c a r b
      go (ok done) e =
          rw (delete_nat_for, own.stored, own.owned, e) (deletes tenant_id entry own refl refl)
      go (err x) e =
          rw (delete_nat_for, own.stored, own.owned, e) (halfway tenant_id entry x own refl refl)

  delete_nat_for-NatDeleting :
      (tenant_id : String)
      → IsCaller c tenant_id a.daemon
      → let (r, b) = delete_nat_for tc tenant_id rule_id c a in NatDeleting tc rule_id c a r b
  unfolding delete_nat_for
  delete_nat_for-NatDeleting tenant_id who = elim (Option-cases (lookup rule_id a.nat_entries_db)) [
    | inl unknown ↦ rw (delete_nat_for, unknown) (refused (http_error 404) refl refl)
    | inr (entry, at) ↦ elim (Bool-cases (entry_belongs tenant_id entry)) [
      | inl own ↦
          delete_nat_owned tenant_id entry (record { by_caller = who; stored = at; owned = own })
      | inr alien ↦ rw (delete_nat_for, at, alien) (refused (http_error 403) refl refl)
    ]
  ]

  pub delete_nat_rule-NatDeleting :
      let (r, b) = delete_nat_rule tc rule_id c a in NatDeleting tc rule_id c a r b
  unfolding delete_nat_rule
  delete_nat_rule-NatDeleting =
      api_caller c a (λ tenant_id. delete_nat_for tc tenant_id rule_id c)
        (NatDeleting tc rule_id c a) (λ x. refused x refl refl)
        (λ tenant_id who. delete_nat_for-NatDeleting tenant_id who)
