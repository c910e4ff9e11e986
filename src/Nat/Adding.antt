-- ===== src/Nat/Adding.antt =====
-- What an adding call runs, and by what the rule is put back.
use technicolor_haze_prism.Base.{
  ◌≡◌, refl, String, Bool, true, false, ◌&&◌, none, some, List, [], ◌∷◌, ◌++◌, text_key, ◌==◌, str,
  ok, arith, ltb, nat_eq, Bool-cases, inl, inr,
}
use technicolor_haze_prism.Tc.{
  Completed, run_tc, get_last_handle, check_in_hw, show_cmd, search_in_hw,
}
use technicolor_haze_prism.Tc.TwoSided.{Log, recorder, succeeds}
use technicolor_haze_prism.Nat.{NatEntry, NatState, Draw, snat_cmd, dnat_cmd, forward_cmd}
use technicolor_haze_prism.Nat.Operations.{
  on_world, reapply_cmd, add_entry, install, register, add_snat, add_dnat, add_port_forward,
  find_existing_nat,
}
use technicolor_haze_prism.Nat.Add.{
  Request, snat, dnat, forward, request_entry, request_text, add_nat,
}
use technicolor_haze_prism.Nat.Table.{
  side, command_of, reapply_cmd-command_of, named_protocol, printed_port, from_1, rewrites,
}
use technicolor_haze_prism.Nat.Commands.{append_assoc}

-- A protocol is not empty, and a forward has ports from 1 on.
abbrev pub IsProgrammable : Request → Type 0
IsProgrammable (snat private_ip public_ip mode) = Unit {0}
IsProgrammable (dnat t) = (t.protocol == "") ≡ false
IsProgrammable (forward t) =
    ((t.protocol == "") ≡ false) × (ltb 0 t.public_port ≡ true) × (ltb 0 t.private_port ≡ true)

abbrev pub asks : String → List String
asks dev = "filter" ∷ "show" ∷ "dev" ∷ dev ∷ "ingress" ∷ "prio" ∷ "20" ∷ []

-- What an adding call that programs a rule has run.
pub record Runs (e : NatEntry) (s t : NatState Log) : Type 0 where
  pub dev : String
  pub on : side e.type ≡ some dev
  pub ran : t.world ≡ s.world ++ (command_of e ∷ asks dev ∷ asks dev ∷ [])
  pub put_back : reapply_cmd dev e ≡ some (command_of e)

-- The command and the port of a call, by the code's own names.
request_cmd : Request → List String
request_cmd (snat private_ip public_ip mode) = snat_cmd private_ip public_ip
request_cmd (dnat t) = dnat_cmd t
request_cmd (forward t) = forward_cmd t

request_dev : Request → String
request_dev (snat private_ip public_ip mode) = "pf0vf3"
request_dev (dnat t) = "pf0vf0"
request_dev (forward t) = "pf0vf0"

request_cmd-command_of :
    (q : Request) (d : Draw) (in_hw : Bool)
    → IsProgrammable q
    → request_cmd q ≡ command_of (request_entry q d in_hw)
unfolding request_cmd command_of rewrites named_protocol printed_port from_1 snat_cmd dnat_cmd
    forward_cmd str
request_cmd-command_of (snat private_ip public_ip mode) d in_hw can = refl
request_cmd-command_of (dnat t) d in_hw can = ground (arith, can)
request_cmd-command_of (forward t) d in_hw (named, from, to) = ground (arith, named, from, to)

side-request_dev :
    (q : Request) (d : Draw) (in_hw : Bool)
    → side (request_entry q d in_hw).type ≡ some (request_dev q)
unfolding side request_dev
side-request_dev (snat private_ip public_ip mode) d in_hw = refl
side-request_dev (dnat t) d in_hw = refl
side-request_dev (forward t) d in_hw = refl

reapply_cmd-home :
    (dev : String) (e : NatEntry) → side e.type ≡ some dev → reapply_cmd dev e ≡ some (command_of e)
reapply_cmd-home dev e on =
    ground (arith, on, reapply_cmd-command_of dev e, text_key.same_iff dev dev)

module _ (answer : List String → Log → Completed) (digest : String → String) (d : Draw)
    (s : NatState Log) where
  programmed :
      (hash dev : String) (cmd : List String) (make : Bool → NatEntry) (e : NatEntry)
      (t : NatState Log)
      → add_entry (recorder answer) hash dev cmd make s ≡ (ok e, t)
      → (in_hw : Bool) × (e ≡ make in_hw) × (t.world ≡ s.world ++ (cmd ∷ asks dev ∷ asks dev ∷ []))
  unfolding add_entry install on_world run_tc get_last_handle check_in_hw register show_cmd str
  programmed hash dev cmd make e t done = elim (Bool-cases (succeeds answer cmd s.world)) [
    | inr refused ↦ absurd (ground (arith, refused, done))
    | inl passed ↦
        let before = s.world ++ (cmd ∷ []) ++ (asks dev ∷ []) in
        (
          nat_eq (answer (asks dev) before).returncode 0
              && search_in_hw "" (answer (asks dev) before).stdout,
          ground (arith, passed, done),
          ground (
            arith,
            passed,
            done,
            append_assoc s.world (cmd ∷ []) (asks dev ∷ []),
            append_assoc s.world (cmd ∷ asks dev ∷ []) (asks dev ∷ []),
          ),
        )
  ]

  Runs-made :
      (q : Request) (e : NatEntry) (t : NatState Log) (in_hw : Bool)
      → IsProgrammable q
      → e ≡ request_entry q d in_hw
      → t.world ≡ s.world ++ (request_cmd q ∷ asks (request_dev q) ∷ asks (request_dev q) ∷ [])
      → Runs e s t
  Runs-made q e t in_hw can made ran =
      let on : side e.type ≡ some (request_dev q) = (rw made (side-request_dev q d in_hw)) in
      record {
        dev = request_dev q;
        on = on;
        ran = ground (arith, made, ran, request_cmd-command_of q d in_hw can);
        put_back = reapply_cmd-home (request_dev q) e on;
      }

  add_nat-add_entry :
      (q : Request) (e : NatEntry) (t : NatState Log)
      → find_existing_nat (digest (request_text q)) s ≡ none
      → add_nat (recorder answer) digest q d s ≡ (ok e, t)
      → add_entry
          (recorder answer)
          (digest (request_text q))
          (request_dev q)
          (request_cmd q)
          (request_entry q d)
          s
        ≡ (ok e, t)
  unfolding add_nat add_snat add_dnat add_port_forward request_dev request_cmd
  add_nat-add_entry (snat private_ip public_ip mode) e t new done = ground (arith, new, done)
  add_nat-add_entry (dnat u) e t new done = ground (arith, new, done)
  add_nat-add_entry (forward u) e t new done = ground (arith, new, done)

  -- An adding call that answers with a new rule has run the command of the rule's type on its port,
  -- then asked twice for the filters there; and the command by which a removal puts the rule back on
  -- that port is the one that was run. The request has a protocol that is not empty, and a forward has
  -- ports from 1 on.
  pub add_nat-Runs :
      (q : Request) (e : NatEntry) (t : NatState Log)
      → IsProgrammable q
      → find_existing_nat (digest (request_text q)) s ≡ none
      → add_nat (recorder answer) digest q d s ≡ (ok e, t)
      → Runs e s t
  add_nat-Runs q e t can new done =
      let (in_hw, made, ran) =
        programmed (digest (request_text q)) (request_dev q) (request_cmd q) (request_entry q d) e t
          (add_nat-add_entry q e t new done) in
      Runs-made q e t in_hw can made ran
