-- ===== src/Nat/Remove.antt =====
-- `remove_nat` and `flush_nat`: the dicts are changed first, so a command that raises changes nothing
-- of what is forgotten; and the states that the calls of this module reach.
use Prim.Native.String.{◌++◌}
use technicolor_haze_prism.Base.{
  ℕ, ◌≡◌, refl, ◌∙◌, String, false, Option, none, some, [], text_key, ◌==◌, Action, Result, ok, err,
  Exn, tc_error, lookup, values, lookup-erase, same_refl, arith, ◌>>◌, lookup-drop_where, length,
}
use technicolor_haze_prism.Tc.{Kernel, Completed, run_tc, internet_port, client_port}
use technicolor_haze_prism.Nat.{NatEntry, NatState}
use technicolor_haze_prism.Nat.Operations.{
  find_existing_nat, forget, on_world, remove_nat, flush_nat, flush_band_cmd, port_of, reapply_all,
}
use technicolor_haze_prism.Nat.Invariant.{Inv, entry_signature, forget-Inv}
use technicolor_haze_prism.Nat.Add.{SameBooks}
use technicolor_haze_prism.Nat.Repeat.{SameBooks-Inv}

-- Two calls on the world, one after the other, leave the dicts and the ports as they are.
world-SameBooks :
    {W A B : Type 0} (m : Action W A) (k : Action W B) (s : NatState W)
    → SameBooks s ((on_world m >> on_world k) s).1
unfolding on_world
world-SameBooks m k s = go (m s.world).0 refl
  where
    go : (r : Result _) → (m s.world).0 ≡ r → SameBooks s ((on_world m >> on_world k) s).1
    go (ok a) e = record {
      same_db = ground (arith, e);
      same_index = ground (arith, e);
      same_snat = ground (arith, e);
    }
    go (err x) e = record {
      same_db = ground (arith, e);
      same_index = ground (arith, e);
      same_snat = ground (arith, e);
    }

-- How a removal may end.
pub data Removal {W : Type 0} (id : String) (s : NatState W) (r : Result (Unit {0}))
    (t : NatState W) : Type 0 where
  unknown :
      lookup id s.nat_db ≡ none
      → r ≡ err (tc_error ("NAT rule " ++ (id ++ " not found")))
      → t ≡ s
      → Removal id s r t
  removed :
      (e : NatEntry) → lookup id s.nat_db ≡ some e → SameBooks (forget id s) t → Removal id s r t

-- A removal either raises the error of an unknown id and changes nothing, or forgets the rule in both
-- dicts, whichever of its commands raise.
pub remove_nat-Removal :
    {W : Type 0} (tc : Kernel W) (id : String) (s : NatState W)
    → Removal id s (remove_nat tc id s).0 (remove_nat tc id s).1
unfolding remove_nat
remove_nat-Removal tc id s = go (lookup id s.nat_db) refl
  where
    go :
        (o : Option NatEntry)
        → lookup id s.nat_db ≡ o
        → let (r, t) = remove_nat tc id s in Removal id s r t
    go none e = unknown e (ground (arith, e)) (ground (arith, e))
    go (some a) e = removed a e (
        rw (remove_nat, e)
          (world-SameBooks (run_tc tc (flush_band_cmd (port_of a)) false)
            (reapply_all tc (port_of a) (values (forget id s).nat_db)) (forget id s)))

pub remove_nat-Inv :
    {W : Type 0} (tc : Kernel W) (digest : String → String) (id : String) (s : NatState W)
    → Inv digest s
    → Inv digest (remove_nat tc id s).1
remove_nat-Inv tc digest id s inv = by_removal (remove_nat-Removal tc id s)
  where
    by_removal :
        Removal id s (remove_nat tc id s).0 (remove_nat tc id s).1
        → Inv digest (remove_nat tc id s).1
    by_removal (unknown e r t) = rw t inv
    by_removal (removed a e same) =
        SameBooks-Inv digest (forget id s) _ same (forget-Inv digest s id inv)

-- After the removal of a rule: it is not stored, its signature is free to be added again, and every
-- other rule is stored as it was and found at its own signature.
pub record Forgotten {W : Type 0} (digest : String → String) (id : String) (e : NatEntry)
    (s t : NatState W) : Type 0 where
  pub gone : lookup id t.nat_db ≡ none
  pub free : find_existing_nat (digest (entry_signature e)) t ≡ none
  pub others :
      (other : String) (a : NatEntry)
      → lookup other s.nat_db ≡ some a
      → (id == other) ≡ false
      → (lookup other t.nat_db ≡ some a)
        × (find_existing_nat (digest (entry_signature a)) t ≡ some a)

forget-Forgotten :
    {W : Type 0} (digest : String → String) (id : String) (e : NatEntry) (s : NatState W)
    → Inv digest s
    → lookup id s.nat_db ≡ some e
    → Forgotten digest id e s (forget id s)
unfolding forget find_existing_nat
forget-Forgotten digest id e s inv at = record {
  gone = ground (arith, lookup-erase id id s.nat_db, same_refl id);
  free = ground (
    arith,
    inv.indexed id e at,
    same_refl id,
    lookup-drop_where (λ k. k == id) (digest (entry_signature e)) s.signature_index
        inv.unique_hashes,
  );
  others = λ other a h ne. (
    ground (arith, lookup-erase id other s.nat_db),
    ground (
      arith,
      lookup-erase id other s.nat_db,
      inv.indexed other a h,
      inv.named other a h,
      text_key.same_iff other id,
      text_key.same_iff id other,
      lookup-drop_where (λ k. k == id) (digest (entry_signature a)) s.signature_index
          inv.unique_hashes,
    ),
  );
}

same-found :
    {W : Type 0} (hash : String) (s t : NatState W)
    → SameBooks s t
    → find_existing_nat hash t ≡ find_existing_nat hash s
unfolding find_existing_nat
same-found hash s t same = ground (arith, same)

-- The removal of a stored rule leaves it gone and its signature free, and every other rule as it was,
-- even where its commands raise.
pub remove_nat_forgets :
    {W : Type 0} (tc : Kernel W) (digest : String → String) (id : String) (e : NatEntry)
    (s : NatState W)
    → Inv digest s
    → lookup id s.nat_db ≡ some e
    → Forgotten digest id e s (remove_nat tc id s).1
remove_nat_forgets tc digest id e s inv at = by_removal (remove_nat-Removal tc id s)
  where
    by_removal :
        Removal id s (remove_nat tc id s).0 (remove_nat tc id s).1
        → Forgotten digest id e s (remove_nat tc id s).1
    by_removal (unknown none_at r t) = absurd (cc)
    by_removal (removed a found same) =
        let f = forget-Forgotten digest id e s inv at in
        record {
          gone = rw same.same_db f.gone;
          free = same-found _ (forget id s) _ same ∙ f.free;
          others = λ other a h ne.
              let (kept, seen) = f.others other a h ne in
              (rw same.same_db kept, same-found _ (forget id s) _ same ∙ seen);
        }

-- How a flush may end: a command raises and the dicts stay, or they are empty and the answer is the
-- number of rules there were.
pub data Flush {W : Type 0} (s : NatState W) (r : Result ℕ) (t : NatState W) : Type 0 where
  stays : (x : Exn) → r ≡ err x → SameBooks s t → Flush s r t
  empties :
      r ≡ ok (length s.nat_db)
      → t.nat_db ≡ []
      → t.signature_index ≡ []
      → t.snat ≡ s.snat
      → Flush s r t

module _ {W : Type 0} (tc : Kernel W) where
  first_flush : NatState W → Result Completed × W
  first_flush s = run_tc tc (flush_band_cmd internet_port) false s.world

  second_flush : NatState W → Result Completed × W
  unfolding first_flush
  second_flush s = run_tc tc (flush_band_cmd client_port) false (first_flush s).1

  pub flush_nat-Flush : (s : NatState W) → Flush s (flush_nat tc s).0 (flush_nat tc s).1
  unfolding flush_nat on_world first_flush second_flush
  flush_nat-Flush s = go (first_flush s).0 (second_flush s).0 refl refl
    where
      go :
          (r q : Result Completed)
          → (first_flush s).0 ≡ r
          → (second_flush s).0 ≡ q
          → let (x, t) = flush_nat tc s in Flush s x t
      go (err x) q e f = stays x (ground (arith, e)) (record {
        same_db = ground (arith, e);
        same_index = ground (arith, e);
        same_snat = ground (arith, e);
      })
      go (ok a) (err x) e f = stays x (ground (arith, e, f)) (record {
        same_db = ground (arith, e, f);
        same_index = ground (arith, e, f);
        same_snat = ground (arith, e, f);
      })
      go (ok a) (ok b) e f =
          empties (ground (arith, e, f)) (ground (arith, e, f)) (ground (arith, e, f))
            (ground (arith, e, f))
