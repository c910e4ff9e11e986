-- ===== src/Api/Stuck.antt =====
-- A deletion of a NAT rule that is cut short between the dicts of nat_manager.py and main.py.
use technicolor_haze_prism.Base.{
  ◌≡◌, ◌≢◌, refl, sym, subst, ◌∙◌, Result, contains-lookup, String, true, none, some, text_key, ok,
  err, http_error, os_error, Option, Option-cases, Bool-cases, inl, inr, contains, lookup, arith,
}
use technicolor_haze_prism.Tc.{Kernel}
use technicolor_haze_prism.Nat.{NatEntry}
use technicolor_haze_prism.Nat.Operations.{remove_nat}
use technicolor_haze_prism.Rules.{Daemon, Call, get_tenant_id}
use technicolor_haze_prism.Rules.Outcomes.{tenant_answer}
use technicolor_haze_prism.Rules.Routes.{except_tc}
use technicolor_haze_prism.Api.{Api, nat_part, with_nat, entry_belongs}
use technicolor_haze_prism.Api.Routes.{delete_nat_for, delete_nat_rule}
use technicolor_haze_prism.Api.Deleting.{IsOwn}
use technicolor_haze_prism.Api.Loops.{lookup-remove_nat}
use technicolor_haze_prism.Api.Tenancy.{known}

-- The code that answers is no OSError.
get_tenant_id_raises :
    {W : Type 0} (c : Call) (s : Daemon W) → (get_tenant_id c.header s).0 ≢ err os_error
unfolding get_tenant_id
get_tenant_id_raises c s = go c.header
  where
    go : (h : Option String) → (get_tenant_id h s).0 ≢ err os_error
    go none e = absurd (ground (arith, e))
    go (some tenant_id) e = absurd (ground (arith, e))

-- A deletion that raises OSError has passed every test, and the rule is forgotten by nat_manager only.
cut_short :
    {W : Type 0} (tc : Kernel W) (rule_id : String) (c : Call) (a : Api W)
    → (delete_nat_rule tc rule_id c a).0 ≡ err os_error
    → (tenant_id : String) × (entry : NatEntry) × IsOwn rule_id c a tenant_id entry
      × ((delete_nat_rule tc rule_id c a).1 ≡ with_nat (remove_nat tc rule_id (nat_part a)).1 a)
unfolding delete_nat_rule delete_nat_for
cut_short {W = W} tc rule_id c a raised = elim (tenant_answer c a.daemon) [
  | inl (x, e) ↦ absurd (ground (arith, e, raised, get_tenant_id_raises c a.daemon))
  | inr (tenant_id, e, who) ↦ elim (Option-cases (lookup rule_id a.nat_entries_db)) [
    | inl unknown ↦ absurd (ground (arith, e, unknown, raised))
    | inr (entry, at) ↦ elim (Bool-cases (entry_belongs tenant_id entry)) [
      | inr alien ↦ absurd (ground (arith, e, at, alien, raised))
      | inl own ↦ (
        tenant_id,
        entry,
        record { by_caller = who; stored = at; owned = own },
        halfway tenant_id entry e at own
            (except_tc (remove_nat tc rule_id (nat_part a)).0 (err (http_error 500))) refl,
      )
    ]
  ]
]
  where
    halfway :
        (tenant_id : String) (entry : NatEntry)
        → get_tenant_id c.header a.daemon ≡ (ok tenant_id, a.daemon)
        → lookup rule_id a.nat_entries_db ≡ some entry
        → entry_belongs tenant_id entry ≡ true
        → (x : Result (Unit {0}))
        → except_tc (remove_nat tc rule_id (nat_part a)).0 (err (http_error 500)) ≡ x
        → (delete_nat_rule tc rule_id c a).1 ≡ with_nat (remove_nat tc rule_id (nat_part a)).1 a
    halfway tenant_id entry e at own (ok done) f = absurd (ground (arith, e, at, own, f, raised))
    halfway tenant_id entry e at own (err x) f = ground (arith, e, at, own, f)

-- An entry that main.py holds and nat_manager does not.
not_removable :
    {W : Type 0} (tc : Kernel W) (rule_id : String) (c : Call) (a : Api W) (tenant_id : String)
    (entry : NatEntry)
    → IsOwn rule_id c a tenant_id entry
    → lookup rule_id a.nat_db ≡ none
    → delete_nat_rule tc rule_id c a ≡ (err (http_error 500), a)
unfolding delete_nat_rule delete_nat_for remove_nat
not_removable tc rule_id c a tenant_id entry own gone =
    ground (arith, known c a tenant_id own.by_caller, own.stored, own.owned, gone)

-- A deletion of a NAT rule that is cut short by what `subprocess.run` raises, of a `tc` that is missing
-- or hangs, leaves the rule in main.py's dict and out of nat_manager's, and then it cannot be deleted:
-- with any kernel, the same tenant's next deletion of it is answered with status 500 and changes
-- nothing.
pub delete_nat_rule_stuck :
    {W : Type 0} (tc later : Kernel W) (rule_id : String) (c d : Call) (a : Api W)
    → d.header ≡ c.header
    → (delete_nat_rule tc rule_id c a).0 ≡ err os_error
    → let b = (delete_nat_rule tc rule_id c a).1 in
      (lookup rule_id b.nat_entries_db ≡ lookup rule_id a.nat_entries_db)
      × (contains rule_id b.nat_entries_db ≡ true)
      × (lookup rule_id b.nat_db ≡ none)
      × (delete_nat_rule later rule_id d b ≡ (err (http_error 500), b))
delete_nat_rule_stuck {W = W} tc later rule_id c d a header raised =
    let (tenant_id, entry, own, left) = cut_short tc rule_id c a raised in
    let b = with_nat (remove_nat tc rule_id (nat_part a)).1 a in
    let gone : lookup rule_id b.nat_db ≡ none = ground (
      arith,
      lookup-remove_nat tc rule_id rule_id (nat_part a),
      text_key.same_iff rule_id rule_id,
    ) in
    let still : IsOwn rule_id d b tenant_id entry = record {
      by_caller = record {
        named = header ∙ own.by_caller.named;
        given = own.by_caller.given;
        registered = own.by_caller.registered;
      };
      stored = own.stored;
      owned = own.owned;
    } in
    subst
      (λ u.
        (lookup rule_id u.nat_entries_db ≡ lookup rule_id a.nat_entries_db)
        × (contains rule_id u.nat_entries_db ≡ true)
        × (lookup rule_id u.nat_db ≡ none)
        × (delete_nat_rule later rule_id d u ≡ (err (http_error 500), u)))
      (sym left)
      (
        refl,
        ground (arith, own.stored, contains-lookup rule_id a.nat_entries_db),
        gone,
        not_removable later rule_id d b tenant_id entry still gone,
      )
