-- ===== src/Api/Invariant.antt =====
-- What the NAT routes keep: every rule that nat_manager holds is an entry that main.py holds.
use technicolor_haze_prism.Base.{
  ◌≡◌, refl, ap, ◌∙◌, String, some, text_key, ◌==◌, lookup, insert, IsDict, insert-IsDict, arith,
  Bool-cases, inl, inr, lookup-insert,
}
use technicolor_haze_prism.Tc.{Kernel}
use technicolor_haze_prism.Nat.{NatEntry, NatState}
use technicolor_haze_prism.Nat.Invariant.{Inv, entry_signature}
use technicolor_haze_prism.Nat.Add.{Request, add_nat, IsFresh}
use technicolor_haze_prism.Nat.Repeat.{add_nat-Inv, lookup-add_nat, dicts-Inv}
use technicolor_haze_prism.Rules.{Call}
use technicolor_haze_prism.Api.{Api, nat_part, owned_by, track, draw_of}
use technicolor_haze_prism.Api.Routes.{add_nat_rule}
use technicolor_haze_prism.Api.Outcomes.{NatAdding, add_nat_rule-NatAdding}

pub record Consistent {W : Type 0} (digest : String → String) (a : Api W) : Type 0 where
  pub nat_Inv : Inv digest (nat_part a)
  pub tracked :
      (id : String) (e : NatEntry)
      → lookup id a.nat_db ≡ some e
      → lookup id a.nat_entries_db ≡ some e
  pub unique_rules : IsDict a.daemon.rules_db
  pub unique_entries : IsDict a.nat_entries_db

-- The tenant of a rule is no part of its signature.
owned_by-signature :
    (tenant_id : String) (e : NatEntry) → entry_signature (owned_by tenant_id e) ≡ entry_signature e
unfolding entry_signature
owned_by-signature tenant_id e = refl

retag-Inv :
    {W : Type 0} (digest : String → String) (tenant_id : String) (e : NatEntry) (s : NatState W)
    → Inv digest s
    → lookup e.id s.nat_db ≡ some e
    → Inv digest (record s { nat_db = insert e.id (owned_by tenant_id e) s.nat_db })
retag-Inv {W = W} digest tenant_id e s inv at = record {
  named = λ id x h. ground (
    arith,
    lookup-insert e.id id (owned_by tenant_id e) s.nat_db,
    text_key.same_iff e.id id,
    inv.named e.id e,
    inv.named id x,
    at,
  );
  indexed = λ id x h. ground (
    arith,
    lookup-insert e.id id (owned_by tenant_id e) s.nat_db,
    text_key.same_iff e.id id,
    owned_by-signature tenant_id e,
    inv.indexed e.id e at,
    inv.indexed id x,
  );
  live = λ hash id h. relive hash id (inv.live hash id h);
  unique = insert-IsDict e.id (owned_by tenant_id e) s.nat_db inv.unique;
  unique_hashes = inv.unique_hashes;
}
  where
    relive :
        (hash id : String)
        → ((x : NatEntry) × (lookup id s.nat_db ≡ some x) × (digest (entry_signature x) ≡ hash))
        → (x : NatEntry) × (lookup id (insert e.id (owned_by tenant_id e) s.nat_db) ≡ some x)
          × (digest (entry_signature x) ≡ hash)
    relive hash id (x, found, same) = elim (Bool-cases (e.id == id)) [
      | inl here ↦ (
        owned_by tenant_id e,
        ground (arith, lookup-insert e.id id (owned_by tenant_id e) s.nat_db, here),
        ap digest (owned_by-signature tenant_id e)
            ∙ ground (arith, found, same, here, at, text_key.same_iff e.id id),
      )
      | inr other ↦ (
        x,
        ground (arith, lookup-insert e.id id (owned_by tenant_id e) s.nat_db, other, found),
        same,
      )
    ]

-- Whatever becomes of a NAT request, the state stays consistent; the new uuid is fresh.
pub add_nat_rule-Consistent :
    {W : Type 0} (tc : Kernel W) (digest : String → String) (q : Request) (c : Call) (a : Api W)
    → Consistent digest a
    → IsFresh tc digest (draw_of c) (nat_part a)
    → Consistent digest (add_nat_rule tc digest q c a).1
unfolding track
add_nat_rule-Consistent tc digest q c a ok_a fresh =
    by_adding (add_nat_rule-NatAdding tc digest q c a)
  where
    by_adding :
        NatAdding tc digest q c a (add_nat_rule tc digest q c a).0 (add_nat_rule tc digest q c a).1
        → Consistent digest (add_nat_rule tc digest q c a).1
    by_adding (NatAdding.refused x r same) = record {
      nat_Inv = dicts-Inv digest (nat_part a) _ same.same_nat same.same_signatures ok_a.nat_Inv;
      tracked = λ id e. rw (same.same_nat, same.same_entries) (ok_a.tracked id e);
      unique_rules = rw same.same_daemon ok_a.unique_rules;
      unique_entries = rw same.same_entries ok_a.unique_entries;
    }
    by_adding (NatAdding.adds tenant_id config entry who at room answered r t) =
        let n = (add_nat tc digest q (draw_of c) (nat_part a)).1 in
        let added = λ (id : String).
          lookup-add_nat tc digest q (draw_of c) (nat_part a) entry id ok_a.nat_Inv answered in
        rw t (record {
          nat_Inv =
              dicts-Inv digest
                (record n { nat_db = insert entry.id (owned_by tenant_id entry) n.nat_db }) _ refl
                refl
                (retag-Inv digest tenant_id entry n
                  (add_nat-Inv tc digest q (draw_of c) (nat_part a) ok_a.nat_Inv fresh)
                  (ground (arith, added entry.id, text_key.same_iff entry.id entry.id)));
          tracked = λ id e h. ground (
            arith,
            h,
            added id,
            text_key.same_iff entry.id id,
            lookup-insert entry.id id (owned_by tenant_id entry) n.nat_db,
            lookup-insert entry.id id (owned_by tenant_id entry) a.nat_entries_db,
            ok_a.tracked id e,
          );
          unique_rules = ok_a.unique_rules;
          unique_entries =
              insert-IsDict entry.id (owned_by tenant_id entry) a.nat_entries_db
                ok_a.unique_entries;
        })
