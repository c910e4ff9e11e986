-- ===== src/Api/Loops.antt =====
-- The loop that takes a tenant's NAT rules out: what is left of both dicts, and of the rest.
use technicolor_haze_prism.Base.{
  ◌≡◌, refl, String, none, List, [], ◌∷◌, text_key, if◌then◌else◌, ◌==◌, lookup, erase, erase_all,
  member, arith, lookup-erase,
}
use technicolor_haze_prism.Tc.{Kernel}
use technicolor_haze_prism.Nat.{NatState}
use technicolor_haze_prism.Nat.Operations.{remove_nat, forget}
use technicolor_haze_prism.Nat.Invariant.{Inv}
use technicolor_haze_prism.Nat.Remove.{Removal, remove_nat-Removal, remove_nat-Inv}
use technicolor_haze_prism.Api.{Api, nat_part, with_nat}
use technicolor_haze_prism.Api.Routes.{remove_nat_each}

-- Whatever its commands do, a removal takes the entry at the id and no other.
pub lookup-remove_nat :
    {W : Type 0} (tc : Kernel W) (id other : String) (s : NatState W)
    → lookup other (remove_nat tc id s).1.nat_db
      ≡ (if id == other then none else lookup other s.nat_db)
unfolding forget
lookup-remove_nat tc id other s = by_removal (remove_nat-Removal tc id s)
  where
    by_removal :
        Removal id s (remove_nat tc id s).0 (remove_nat tc id s).1
        → lookup other (remove_nat tc id s).1.nat_db
          ≡ (if id == other then none else lookup other s.nat_db)
    by_removal (Removal.unknown free r t) = rw t (ground (arith, free, text_key.same_iff id other))
    by_removal (Removal.removed e at same) = rw same.same_db (lookup-erase id other s.nat_db)

-- Everything but the NAT rules and the world.
pub record SameRest {W : Type 0} (a b : Api W) : Type 0 where
  pub rest_rules : b.daemon.rules_db ≡ a.daemon.rules_db
  pub rest_signatures : b.daemon.rule_signature_index ≡ a.daemon.rule_signature_index
  pub rest_keys : b.daemon.idempotency_key_index ≡ a.daemon.idempotency_key_index
  pub rest_tenants : b.daemon.tenants ≡ a.daemon.tenants

module _ {W : Type 0} (tc : Kernel W) where
  pub each-entries :
      (ids : List String) (a : Api W)
      → (remove_nat_each tc ids a).nat_entries_db ≡ erase_all ids a.nat_entries_db
  unfolding remove_nat_each erase_all
  each-entries [] a = refl
  each-entries (id ∷ ids) a = each-entries ids _

  pub each-db :
      (ids : List String) (a : Api W) (other : String)
      → lookup other (remove_nat_each tc ids a).nat_db
        ≡ (if member other ids then none else lookup other a.nat_db)
  unfolding remove_nat_each member
  each-db [] a other = refl
  each-db (id ∷ ids) a other = ground (
    arith,
    each-db ids
        (record (with_nat (remove_nat tc id (nat_part a)).1 a) {
          nat_entries_db = erase id a.nat_entries_db;
        })
        other,
    lookup-remove_nat tc id other (nat_part a),
  )

  pub each-SameRest : (ids : List String) (a : Api W) → SameRest a (remove_nat_each tc ids a)
  unfolding remove_nat_each
  each-SameRest [] a = record {
    rest_rules = refl;
    rest_signatures = refl;
    rest_keys = refl;
    rest_tenants = refl;
  }
  each-SameRest (id ∷ ids) a =
      let ih = each-SameRest ids (record (with_nat (remove_nat tc id (nat_part a)).1 a) {
        nat_entries_db = erase id a.nat_entries_db;
      }) in
      record {
        rest_rules = ih.rest_rules;
        rest_signatures = ih.rest_signatures;
        rest_keys = ih.rest_keys;
        rest_tenants = ih.rest_tenants;
      }

  pub each-Inv :
      (digest : String → String) (ids : List String) (a : Api W)
      → Inv digest (nat_part a)
      → Inv digest (nat_part (remove_nat_each tc ids a))
  unfolding remove_nat_each
  each-Inv digest [] a inv = inv
  each-Inv digest (id ∷ ids) a inv =
      each-Inv digest ids
        (record (with_nat (remove_nat tc id (nat_part a)).1 a) {
          nat_entries_db = erase id a.nat_entries_db;
        })
        (remove_nat-Inv tc digest id (nat_part a) inv)
