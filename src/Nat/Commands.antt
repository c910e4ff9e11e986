-- ===== src/Nat/Commands.antt =====
-- What a removal runs: it flushes one band and puts back every survivor of that port.
use technicolor_haze_prism.Base.{
  ◌≡◌, refl, ap, sym, String, Option, none, some, List, [], ◌∷◌, ◌++◌, text_key, ◌==◌,
  if◌then◌else◌, str, ok, lookup, erase, drop_where, values, arith,
}
use technicolor_haze_prism.Tc.{Completed}
use technicolor_haze_prism.Tc.TwoSided.{Log, recorder, run_tc-recorder}
use technicolor_haze_prism.Nat.{NatEntry, NatState}
use technicolor_haze_prism.Nat.Operations.{
  forget, on_world, remove_nat, flush_band_cmd, port_of, reapply_all, reapply_cmd,
}
use technicolor_haze_prism.Nat.Table.{commands_on, reapply_cmd-command_of}

pub append_assoc : {A : Type 0} (xs ys zs : List A) → (xs ++ ys) ++ zs ≡ xs ++ (ys ++ zs)
append_assoc [] ys zs = refl
append_assoc (x ∷ xs) ys zs = ap (λ l. x ∷ l) (append_assoc xs ys zs)

append_nil : {A : Type 0} (xs : List A) → xs ++ [] ≡ xs
append_nil [] = refl
append_nil (x ∷ xs) = ap (λ l. x ∷ l) (append_nil xs)

module _ (answer : List String → Log → Completed) where
  reapply_all-recorder :
      (port : String) (entries : List NatEntry) (log : Log)
      → reapply_all (recorder answer) port entries log ≡ (ok tt, log ++ commands_on port entries)
  unfolding reapply_all commands_on
  reapply_all-recorder port [] log = ap (λ l. (ok tt, l)) (sym (append_nil log))
  reapply_all-recorder port (e ∷ entries) log =
      go (λ l. reapply_all-recorder port entries l) (reapply_cmd port e) refl
    where
      go :
          ((l : Log)
            → reapply_all (recorder answer) port entries l ≡ (ok tt, l ++ commands_on port entries))
          → (o : Option (List String)) → reapply_cmd port e ≡ o
          → reapply_all (recorder answer) port (e ∷ entries) log
            ≡ (ok tt, log ++ commands_on port (e ∷ entries))
      go rest none h = ground (arith, h, rest log, reapply_cmd-command_of port e)
      go rest (some cmd) h = ground (
        arith,
        h,
        reapply_cmd-command_of port e,
        run_tc-recorder answer cmd log,
        rest (log ++ (cmd ∷ [])),
        append_assoc log (cmd ∷ []) (commands_on port entries),
      )

-- The port that a stored rule is taken to be on.
unfoldable pub home : NatEntry → String
home e = if e.type == "snat" then "pf0vf3" else "pf0vf0"

-- Where no command raises, the removal of a stored rule takes it out of the dict and the index, deletes
-- the filters of priority 20 on its port and no others, puts back every other rule of that port by the
-- command of its type, in the order of the rules, and runs no other command.
pub remove_nat_restores :
    (answer : List String → Log → Completed) (id : String) (e : NatEntry) (s : NatState Log)
    → lookup id s.nat_db ≡ some e
    → remove_nat (recorder answer) id s ≡ (
      ok tt,
      record s {
        nat_db = erase id s.nat_db;
        signature_index = drop_where (λ i. i == id) s.signature_index;
        world =
            s.world
            ++ (("filter" ∷ "del" ∷ "dev" ∷ home e ∷ "ingress" ∷ "prio" ∷ "20" ∷ [])
                ∷ commands_on (home e) (values (erase id s.nat_db)));
      },
    )
unfolding remove_nat forget on_world flush_band_cmd port_of home str
remove_nat_restores answer id e s at = ground (
  arith,
  at,
  run_tc-recorder answer (flush_band_cmd (port_of e)) s.world,
  reapply_all-recorder answer (port_of e) (values (erase id s.nat_db))
      (s.world ++ (flush_band_cmd (port_of e) ∷ [])),
  append_assoc s.world (flush_band_cmd (port_of e) ∷ [])
      (commands_on (port_of e) (values (erase id s.nat_db))),
)
