-- ===== src/Nat/Repeat.antt =====
-- The adding calls and the invariant; a request that is made again is answered with the rule it has.
use technicolor_haze_prism.Base.{
  ◌≡◌, refl, ap, String, false, ◌||◌, some, text_key, ◌==◌, ok, lookup, lookup-insert,
  lookup-insert_self, if◌then◌else◌, Option-cases, ◌∙◌, arith, Bool-cases, inl, inr,
}
use technicolor_haze_prism.Tc.{Kernel}
use technicolor_haze_prism.Nat.{NatEntry, NatState, Draw}
use technicolor_haze_prism.Nat.Operations.{
  find_existing_nat, register, add_snat, add_dnat, add_port_forward,
}
use technicolor_haze_prism.Nat.Invariant.{Inv, register-Inv}
use technicolor_haze_prism.Nat.Add.{
  SameBooks, fails, adds, Request, snat, dnat, forward, request_text, request_entry, add_nat,
  Answer, refused, existing, programs, add_nat-Answer, request-entry_signature, request-id, IsFresh,
}

-- The invariant speaks of the two dicts alone.
pub dicts-Inv :
    {W : Type 0} (digest : String → String) (s t : NatState W)
    → t.nat_db ≡ s.nat_db
    → t.signature_index ≡ s.signature_index
    → Inv digest s
    → Inv digest t
dicts-Inv digest s t db index inv = record {
  named = λ id e. rw db (inv.named id e);
  indexed = λ id e. rw (db, index) (inv.indexed id e);
  live = λ hash id. rw (db, index) (inv.live hash id);
  unique = rw db inv.unique;
  unique_hashes = rw index inv.unique_hashes;
}

pub SameBooks-Inv :
    {W : Type 0} (digest : String → String) (s t : NatState W)
    → SameBooks s t
    → Inv digest s
    → Inv digest t
SameBooks-Inv digest s t same inv = dicts-Inv digest s t same.same_db same.same_index inv

-- Whatever becomes of an adding call, an exception in any of its commands included, the index and
-- the rules stay inverse to one another, when the new uuid is not empty and no live rule has it.
pub add_nat-Inv :
    {W : Type 0} (tc : Kernel W) (digest : String → String) (q : Request) (d : Draw)
    (s : NatState W)
    → Inv digest s
    → IsFresh tc digest d s
    → Inv digest (add_nat tc digest q d s).1
unfolding find_existing_nat
add_nat-Inv tc digest q d s inv fresh = by_answer (add_nat-Answer tc digest d s q)
  where
    by_answer :
        Answer s
          (digest (request_text q))
          (request_entry q d)
          (add_nat tc digest q d s).0
          (add_nat tc digest q d s).1
        → Inv digest (add_nat tc digest q d s).1
    by_answer (refused x r t) = rw t inv
    by_answer (existing a f r t) = rw t inv
    by_answer (programs f (fails x r same)) = SameBooks-Inv digest s _ same inv
    by_answer (programs f (adds b w r t)) = rw t (
        register-Inv digest (record s { world = w }) (digest (request_text q)) (request_entry q d b)
          (dicts-Inv digest s (record s { world = w }) refl refl inv) f
          (rw (request-id tc digest d s q b) fresh.0) (rw (request-id tc digest d s q b) fresh.1)
          (ap digest (request-entry_signature tc digest d s q b)))

-- A registered rule is found at its hash.
registered-found :
    {W : Type 0} (hash : String) (a : NatEntry) (s : NatState W)
    → (a.id == "") ≡ false
    → find_existing_nat hash (register hash a s) ≡ some a
unfolding find_existing_nat register
registered-found hash a s name = ground (
  arith,
  lookup-insert_self hash a.id s.signature_index,
  name,
  lookup-insert_self a.id a s.nat_db,
)

-- A call that returned has a rule of its signature afterwards: the one it returned.
pub answered-found :
    {W : Type 0} (tc : Kernel W) (digest : String → String) (q : Request) (d : Draw)
    (s : NatState W) (e : NatEntry)
    → (d.id == "") ≡ false
    → (add_nat tc digest q d s).0 ≡ ok e
    → find_existing_nat (digest (request_text q)) (add_nat tc digest q d s).1 ≡ some e
answered-found tc digest q d s e name h = by_answer (add_nat-Answer tc digest d s q)
  where
    by_answer :
        Answer s
          (digest (request_text q))
          (request_entry q d)
          (add_nat tc digest q d s).0
          (add_nat tc digest q d s).1
        → find_existing_nat (digest (request_text q)) (add_nat tc digest q d s).1 ≡ some e
    by_answer (refused x r t) = absurd (cc)
    by_answer (existing a f r t) = rw t (ground (arith, f, r, h))
    by_answer (programs f (fails x r same)) = absurd (cc)
    by_answer (programs f (adds b w r t)) = rw t (
        ground (
          arith,
          registered-found (digest (request_text q)) (request_entry q d b) (record s { world = w })
              (rw (request-id tc digest d s q b) name),
          r,
          h,
        ))

-- A valid request whose signature a live rule has is answered with that rule.
pub valid-answered :
    {W : Type 0} (tc : Kernel W) (digest : String → String) (q : Request) (d c : Draw)
    (s t : NatState W) (first e : NatEntry)
    → (add_nat tc digest q d s).0 ≡ ok first
    → find_existing_nat (digest (request_text q)) t ≡ some e
    → add_nat tc digest q c t ≡ (ok e, t)
unfolding add_nat add_snat add_dnat add_port_forward
valid-answered tc digest (snat private_ip public_ip mode) d c s t first e h f =
    elim (Bool-cases (mode == "static" || mode == "masquerade")) [
      | inl valid ↦ ground (arith, valid, f)
      | inr invalid ↦ absurd (ground (arith, h, invalid))
    ]
valid-answered tc digest (dnat x) d c s t first e h f = ground (arith, f)
valid-answered tc digest (forward x) d c s t first e h f = ground (arith, f)

-- A request that is made again after it succeeded is answered with the same rule, whatever uuid and
-- time are drawn, and changes nothing, no command included; the first uuid is not empty.
pub add_nat_idempotent :
    {W : Type 0} (tc : Kernel W) (digest : String → String) (q : Request) (d c : Draw)
    (s : NatState W) (e : NatEntry)
    → (d.id == "") ≡ false
    → (add_nat tc digest q d s).0 ≡ ok e
    → add_nat tc digest q c (add_nat tc digest q d s).1 ≡ (ok e, (add_nat tc digest q d s).1)
add_nat_idempotent tc digest q d c s e name h =
    valid-answered tc digest q d c s _ e e h (answered-found tc digest q d s e name h)

-- What `_find_existing_nat` answers is stored under its own id.
found-stored :
    {W : Type 0} (digest : String → String) (s : NatState W) (hash : String) (e : NatEntry)
    → Inv digest s
    → find_existing_nat hash s ≡ some e
    → lookup e.id s.nat_db ≡ some e
unfolding find_existing_nat
found-stored digest s hash e inv f = elim (Option-cases (lookup hash s.signature_index)) [
  | inl free ↦ absurd (ground (arith, f, free))
  | inr (id, at) ↦ ground (arith, f, at, inv.named id e)
]

-- After an adding call that answered a rule, this rule is stored under its id and all else is as it was.
pub lookup-add_nat :
    {W : Type 0} (tc : Kernel W) (digest : String → String) (q : Request) (d : Draw)
    (s : NatState W) (e : NatEntry) (other : String)
    → Inv digest s
    → (add_nat tc digest q d s).0 ≡ ok e
    → lookup other (add_nat tc digest q d s).1.nat_db
      ≡ (if e.id == other then some e else lookup other s.nat_db)
unfolding register
lookup-add_nat tc digest q d s e other inv h = by_answer (add_nat-Answer tc digest d s q)
  where
    by_answer :
        Answer s
          (digest (request_text q))
          (request_entry q d)
          (add_nat tc digest q d s).0
          (add_nat tc digest q d s).1
        → lookup other (add_nat tc digest q d s).1.nat_db
          ≡ (if e.id == other then some e else lookup other s.nat_db)
    by_answer (refused x r t) = absurd (cc)
    by_answer (existing a f r t) =
        let same : a ≡ e = ground (arith, r, h) in
        let at = found-stored digest s (digest (request_text q)) e inv (f ∙ ap some same) in
        rw t (ground (arith, at, text_key.same_iff e.id other))
    by_answer (programs f (fails x r same)) = absurd (cc)
    by_answer (programs f (adds b w r t)) =
        let same : request_entry q d b ≡ e = ground (arith, r, h) in
        rw (t, same) (lookup-insert e.id other e s.nat_db)
