-- ===== src/Nat/Add.antt =====
-- The adding calls: atomic on failure, idempotent on success, and the invariant is kept.
use technicolor_haze_prism.Base.{
  ◌≡◌, refl, String, Bool, true, false, not, ◌&&◌, ◌||◌, Option, none, some, List, text_key,
  if◌then◌else◌, ◌==◌, Action, Result, ok, err, Exn, lookup, arith,
}
use technicolor_haze_prism.Tc.{Kernel, internet_port, client_port}
use technicolor_haze_prism.Snat.{is_exhausted}
use technicolor_haze_prism.Nat.{
  NatEntry, NatState, Target, Draw, snat_signature, target_signature, snat_cmd, dnat_cmd,
  forward_cmd, snat_entry, target_entry,
}
use technicolor_haze_prism.Nat.Operations.{
  find_existing_nat, register, on_world, install, add_entry, add_snat, add_dnat, add_port_forward,
}
use technicolor_haze_prism.Nat.Invariant.{entry_signature}

-- The dicts and the ports are those of `s`; only the world may differ.
pub record SameBooks {W : Type 0} (s t : NatState W) : Type 0 where
  pub same_db : t.nat_db ≡ s.nat_db
  pub same_index : t.signature_index ≡ s.signature_index
  pub same_snat : t.snat ≡ s.snat

-- How the programming of a new rule may end: an exception and the dicts as they were, or the new
-- entry, stored and indexed.
pub data Adds {W : Type 0} (s : NatState W) (hash : String) (make : Bool → NatEntry)
    (r : Result NatEntry) (t : NatState W) : Type 0 where
  fails : (x : Exn) → r ≡ err x → SameBooks s t → Adds s hash make r t
  adds :
      (in_hw : Bool) (w : W)
      → r ≡ ok (make in_hw)
      → t ≡ register hash (make in_hw) (record s { world = w })
      → Adds s hash make r t

module _ {W : Type 0} (tc : Kernel W) where
  add_entry-Adds :
      (s : NatState W) (hash dev : String) (cmd : List String) (make : Bool → NatEntry)
      → let (r, t) = add_entry tc hash dev cmd make s in Adds s hash make r t
  unfolding add_entry on_world
  add_entry-Adds s hash dev cmd make = go (install tc dev cmd s.world).0 refl
    where
      go :
          (x : Result Bool)
          → (install tc dev cmd s.world).0 ≡ x
          → let (r, t) = add_entry tc hash dev cmd make s in Adds s hash make r t
      go (ok b) e = adds b (install tc dev cmd s.world).1 (ground (arith, e)) (ground (arith, e))
      go (err x) e = fails x (ground (arith, e)) (record {
        same_db = ground (arith, e);
        same_index = ground (arith, e);
        same_snat = ground (arith, e);
      })

-- The three adding calls as one, by what is asked for.
pub data Request : Type 0 where
  snat : String → String → String → Request
  dnat forward : Target → Request

abbrev pub request_text : Request → String
request_text (snat private_ip public_ip mode) = snat_signature private_ip public_ip
request_text (dnat t) = target_signature "dnat" t
request_text (forward t) = target_signature "forward" t

abbrev pub request_entry : Request → Draw → Bool → NatEntry
request_entry (snat private_ip public_ip mode) d in_hw =
    snat_entry private_ip public_ip mode in_hw d
request_entry (dnat t) d in_hw = target_entry "dnat" t in_hw d
request_entry (forward t) d in_hw = target_entry "forward" t in_hw d

module _ {W : Type 0} (tc : Kernel W) (digest : String → String) where
  unfoldable pub add_nat : Request → Draw → Action (NatState W) NatEntry
  add_nat (snat private_ip public_ip mode) d = add_snat tc digest private_ip public_ip mode d
  add_nat (dnat t) d = add_dnat tc digest t d
  add_nat (forward t) d = add_port_forward tc digest t d

-- How a whole call may end: refused by the validation, answered with the live rule of the same
-- signature, or programmed.
pub data Answer {W : Type 0} (s : NatState W) (hash : String) (make : Bool → NatEntry)
    (r : Result NatEntry) (t : NatState W) : Type 0 where
  refused : (x : Exn) → r ≡ err x → t ≡ s → Answer s hash make r t
  existing :
      (e : NatEntry) → find_existing_nat hash s ≡ some e → r ≡ ok e → t ≡ s → Answer s hash make r t
  programs : find_existing_nat hash s ≡ none → Adds s hash make r t → Answer s hash make r t

module _ {W : Type 0} (tc : Kernel W) (digest : String → String) (d : Draw) (s : NatState W) where
  abbrev AnswersTo : Request → Result NatEntry × NatState W → Type 0
  AnswersTo q (r, t) = Answer s (digest (request_text q)) (request_entry q d) r t

  -- The call for a rule that no live rule has the signature of, after the validation.
  programmed :
      (q : Request) (dev : String) (cmd : List String)
      → find_existing_nat (digest (request_text q)) s ≡ none
      → AnswersTo q (add_entry tc (digest (request_text q)) dev cmd (request_entry q d) s)
  programmed q dev cmd new =
      programs new (add_entry-Adds tc s (digest (request_text q)) dev cmd (request_entry q d))

  target-Answer :
      (q : Request) (dev : String) (cmd : List String) (o : Option NatEntry)
      → find_existing_nat (digest (request_text q)) s ≡ o
      → AnswersTo q (elim o as (λ _. Result NatEntry × NatState W) [
        | some e ↦ (ok e, s)
        | none ↦ add_entry tc (digest (request_text q)) dev cmd (request_entry q d) s
      ])
  target-Answer q dev cmd none e = programmed q dev cmd e
  target-Answer q dev cmd (some entry) e = existing entry e refl refl

  snat-Answer :
      (q : Request) (dev : String) (cmd : List String) (invalid exhausted : Bool) (x y : Exn)
      (o : Option NatEntry)
      → find_existing_nat (digest (request_text q)) s ≡ o
      → AnswersTo q (
          if invalid then (err x, s) else elim o as (λ _. Result NatEntry × NatState W) [
            | some e ↦ (ok e, s)
            | none ↦
                if exhausted
                then (err y, s)
                else add_entry tc (digest (request_text q)) dev cmd (request_entry q d) s
          ])
  snat-Answer q dev cmd true exhausted x y o e = refused x refl refl
  snat-Answer q dev cmd false exhausted x y (some entry) e = existing entry e refl refl
  snat-Answer q dev cmd false true x y none e = refused y refl refl
  snat-Answer q dev cmd false false x y none e = programmed q dev cmd e

  pub add_nat-Answer : (q : Request) → AnswersTo q (add_nat tc digest q d s)
  unfolding add_nat add_snat add_dnat add_port_forward
  add_nat-Answer (dnat t) = target-Answer (dnat t) internet_port (dnat_cmd t) _ refl
  add_nat-Answer (forward t) = target-Answer (forward t) internet_port (forward_cmd t) _ refl
  add_nat-Answer (snat private_ip public_ip mode) =
      snat-Answer (snat private_ip public_ip mode) client_port (snat_cmd private_ip public_ip)
        (not (mode == "static" || mode == "masquerade"))
        (mode == "masquerade" && is_exhausted public_ip s.snat) _ _ _ refl

  -- A new rule's entry hashes as its request does.
  pub request-entry_signature :
      (q : Request) (b : Bool) → entry_signature (request_entry q d b) ≡ request_text q
  unfolding entry_signature target_signature
  request-entry_signature (snat private_ip public_ip mode) b = refl
  request-entry_signature (dnat t) b = refl
  request-entry_signature (forward t) b = refl

  pub request-id : (q : Request) (b : Bool) → (request_entry q d b).id ≡ d.id
  request-id (snat private_ip public_ip mode) b = refl
  request-id (dnat t) b = refl
  request-id (forward t) b = refl

  -- The new uuid is not empty and no live rule has it.
  abbrev pub IsFresh : Type 0
  IsFresh = (lookup d.id s.nat_db ≡ none) × ((d.id == "") ≡ false)

-- A call that raises, at the validation or in any of its commands, leaves the rules, the index and
-- the ports as they were.
pub add_nat_atomic :
    {W : Type 0} (tc : Kernel W) (digest : String → String) (q : Request) (d : Draw)
    (s : NatState W) {x : Exn}
    → (add_nat tc digest q d s).0 ≡ err x
    → SameBooks s (add_nat tc digest q d s).1
add_nat_atomic tc digest q d s e = by_answer (add_nat-Answer tc digest d s q)
  where
    by_answer :
        Answer s
          (digest (request_text q))
          (request_entry q d)
          (add_nat tc digest q d s).0
          (add_nat tc digest q d s).1
        → SameBooks s (add_nat tc digest q d s).1
    by_answer (refused x r t) =
        rw t (record { same_db = refl; same_index = refl; same_snat = refl })
    by_answer (existing a f r t) = absurd (cc)
    by_answer (programs f (fails x r same)) = same
    by_answer (programs f (adds b w r t)) = absurd (cc)
