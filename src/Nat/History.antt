-- ===== src/Nat/History.antt =====
-- The states that the NAT calls reach, in any order and with any answers of the kernel.
use technicolor_haze_prism.Base.{ℕ, refl, String, [], text_key, lookup, arith}
use technicolor_haze_prism.Tc.{Kernel}
use technicolor_haze_prism.Snat.{Connection, SnatState}
use technicolor_haze_prism.Nat.{NatState, Draw}
use technicolor_haze_prism.Nat.Operations.{
  remove_nat, flush_nat, allocate_masquerade_port, release_masquerade_port, on_snat,
}
use technicolor_haze_prism.Nat.Invariant.{Inv}
use technicolor_haze_prism.Nat.Add.{Request, add_nat, IsFresh}
use technicolor_haze_prism.Nat.Repeat.{SameBooks-Inv, dicts-Inv, add_nat-Inv}
use technicolor_haze_prism.Nat.Remove.{remove_nat-Inv, flush_nat-Flush, Flush, stays, empties}

flush_nat-Inv :
    {W : Type 0} (tc : Kernel W) (digest : String → String) (s : NatState W)
    → Inv digest s
    → Inv digest (flush_nat tc s).1
unfolding lookup
flush_nat-Inv tc digest s inv = by_flush (flush_nat-Flush tc s)
  where
    by_flush : Flush s (flush_nat tc s).0 (flush_nat tc s).1 → Inv digest (flush_nat tc s).1
    by_flush (stays x r same) = SameBooks-Inv digest s _ same inv
    by_flush (empties r db index ports) = record {
      named = rw db (λ id e h. absurd (ground (arith, h)));
      indexed = rw db (λ id e h. absurd (ground (arith, h)));
      live = rw index (λ hash id h. absurd (ground (arith, h)));
      unique = rw db tt;
      unique_hashes = rw index tt;
    }

module _ {W : Type 0} (tc : Kernel W) (digest : String → String) where
  -- One call, or anything that happens in the world between two calls.
  pub data Step (s : NatState W) : NatState W → Type 0 where
    adding : (q : Request) (d : Draw) → IsFresh tc digest d s → Step s (add_nat tc digest q d s).1
    removing : (id : String) → Step s (remove_nat tc id s).1
    flushing : Step s (flush_nat tc s).1
    allocating :
        (public_ip : String) (c : Connection) (now : ℕ)
        → Step s (allocate_masquerade_port public_ip c now s).1
    releasing :
        (public_ip : String) (port : ℕ) → Step s (release_masquerade_port public_ip port s).1
    elsewhere : (w : W) → Step s (record s { world = w })

  pub data Reaches (s : NatState W) : NatState W → Type 0 where
    here : Reaches s s
    then_step : {t u : NatState W} → Reaches s t → Step t u → Reaches s u

  Step-Inv : {s t : NatState W} → Step s t → Inv digest s → Inv digest t
  unfolding allocate_masquerade_port release_masquerade_port on_snat
  Step-Inv (adding q d fresh) inv = add_nat-Inv tc digest q d _ inv fresh
  Step-Inv (removing id) inv = remove_nat-Inv tc digest id _ inv
  Step-Inv flushing inv = flush_nat-Inv tc digest _ inv
  Step-Inv {s = s} (allocating public_ip c now) inv = dicts-Inv digest s _ refl refl inv
  Step-Inv {s = s} (releasing public_ip port) inv = dicts-Inv digest s _ refl refl inv
  Step-Inv {s = s} (elsewhere w) inv = dicts-Inv digest s (record s { world = w }) refl refl inv

  Reaches-Inv : {s t : NatState W} → Reaches s t → Inv digest s → Inv digest t
  Reaches-Inv here inv = inv
  Reaches-Inv (then_step path step) inv = Step-Inv step (Reaches-Inv path inv)

-- No rule yet, and no signature.
abbrev pub no_rules : {W : Type 0} → W → SnatState → NatState W
no_rules w ports = record { world = w; nat_db = []; signature_index = []; snat = ports }

-- In every state that the NAT calls reach from no rules, whatever the kernel answers and however the
-- world changes between the calls, the rules and the index are inverse to one another: a rule is
-- stored under its own id, its signature leads to it, and every indexed hash leads to a live rule of
-- that signature. Each adding call draws a uuid that is not empty and that no live rule has.
pub Reaches-no_rules :
    {W : Type 0} (tc : Kernel W) (digest : String → String) (w : W) (ports : SnatState)
    (t : NatState W)
    → Reaches tc digest (no_rules w ports) t
    → Inv digest t
unfolding lookup
Reaches-no_rules tc digest w ports t path = Reaches-Inv tc digest path (record {
  named = λ id e h. absurd (ground (arith, h));
  indexed = λ id e h. absurd (ground (arith, h));
  live = λ hash id h. absurd (ground (arith, h));
  unique = tt;
  unique_hashes = tt;
})
