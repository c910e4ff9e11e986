-- ===== src/Nat/Operations.antt =====
-- The operations of nat_manager.py, each whole: validation, the idempotency check, the commands, the
-- dicts.
use Prim.Native.String.{◌++◌}
use technicolor_haze_prism.Base.{
  ℕ, String, Bool, true, false, not, ◌&&◌, ◌||◌, Option, none, some, List, [], ◌∷◌, text_key,
  if◌then◌else◌, ◌==◌, Action, ok, err, tc_error, pure, gets, modify, ◌>>=◌, ◌>>◌, str, lookup,
  insert, erase, values, length, drop_where,
}
use technicolor_haze_prism.Snat.{
  Connection, allocate_port, release_port, SnatState, is_exhausted, get_pool_stats, PoolStats,
}
use technicolor_haze_prism.Tc.{
  Kernel, internet_port, client_port, run_tc, get_last_handle, check_in_hw,
}
use technicolor_haze_prism.Nat.{
  nat_priority, NatEntry, NatState, Target, Draw, snat_signature, target_signature, snat_cmd,
  dnat_cmd, forward_cmd, reapply_snat_cmd, reapply_target_cmd, snat_entry, target_entry,
}

-- `_find_existing_nat` at the hash of the signature.
unfoldable pub find_existing_nat : {W : Type 0} → String → NatState W → Option NatEntry
find_existing_nat hash s = elim (lookup hash s.signature_index) [
  | none ↦ none
  | some id ↦ if id == "" then none else lookup id s.nat_db
]

-- A call of tc_manager on the world in the state.
unfoldable pub on_world : {W A : Type 0} → Action W A → Action (NatState W) A
on_world m s = let (r, w) = m s.world in (r, record s { world = w })

-- Stores a new entry and indexes it.
unfoldable pub register : {W : Type 0} → String → NatEntry → NatState W → NatState W
register hash entry s = record s {
  nat_db = insert entry.id entry s.nat_db;
  signature_index = insert hash entry.id s.signature_index;
}

unfoldable pub flush_band_cmd : String → List String
unfolding str
flush_band_cmd port = "filter" ∷ "del" ∷ "dev" ∷ port ∷ "ingress" ∷ "prio" ∷ str nat_priority ∷ []

-- The entry leaves both dicts before any command is run.
unfoldable pub forget : {W : Type 0} → String → NatState W → NatState W
forget rule_id s = record s {
  nat_db = erase rule_id s.nat_db;
  signature_index = drop_where (λ id. id == rule_id) s.signature_index;
}

-- Which command, if any, puts a survivor back on the port that was flushed.
unfoldable pub reapply_cmd : String → NatEntry → Option (List String)
reapply_cmd port e =
    if e.type == "snat" && port == client_port
    then some (reapply_snat_cmd e)
    else if (e.type == "dnat" || e.type == "forward") && port == internet_port
    then some (reapply_target_cmd e)
    else none

-- The port that a rule is on.
unfoldable pub port_of : NatEntry → String
port_of e = if e.type == "snat" then client_port else internet_port

module _ {W : Type 0} (tc : Kernel W) where
  -- Under the lock: add the filter, read its handle back, ask whether it is in hardware.
  unfoldable pub install : String → List String → Action W Bool
  install dev cmd = do
    run_tc tc cmd true
    handle ← get_last_handle tc dev nat_priority
    check_in_hw tc dev handle nat_priority

  -- What the three adding calls share once the rule is known to be new.
  unfoldable pub add_entry :
      String → String → List String → (Bool → NatEntry) → Action (NatState W) NatEntry
  add_entry hash dev cmd make = do
    in_hw ← on_world (install dev cmd)
    modify (register hash (make in_hw))
    pure (make in_hw)

module _ {W : Type 0} (tc : Kernel W) (digest : String → String) where
  unfoldable pub add_snat : String → String → String → Draw → Action (NatState W) NatEntry
  add_snat private_ip public_ip mode d s =
      let hash = digest (snat_signature private_ip public_ip) in
      if not (mode == "static" || mode == "masquerade")
      then (
        err (tc_error ("Invalid SNAT mode: " ++ (mode ++ ". Must be 'static' or 'masquerade'"))),
        s,
      )
      else elim (find_existing_nat hash s) [
        | some existing ↦ (ok existing, s)
        | none ↦
            if mode == "masquerade" && is_exhausted public_ip s.snat
            then (
              err (
                  tc_error (
                    "Port pool exhausted for "
                    ++ (public_ip ++ ": cannot accept new masquerade SNAT rule"))),
              s,
            )
            else add_entry tc hash client_port (snat_cmd private_ip public_ip)
                (λ in_hw. snat_entry private_ip public_ip mode in_hw d) s
      ]

  unfoldable pub add_dnat : Target → Draw → Action (NatState W) NatEntry
  add_dnat t d s =
      let hash = digest (target_signature "dnat" t) in
      elim (find_existing_nat hash s) [
        | some existing ↦ (ok existing, s)
        | none ↦
            add_entry tc hash internet_port (dnat_cmd t) (λ in_hw. target_entry "dnat" t in_hw d) s
      ]

  unfoldable pub add_port_forward : Target → Draw → Action (NatState W) NatEntry
  add_port_forward t d s =
      let hash = digest (target_signature "forward" t) in
      elim (find_existing_nat hash s) [
        | some existing ↦ (ok existing, s)
        | none ↦
            add_entry tc hash internet_port (forward_cmd t)
              (λ in_hw. target_entry "forward" t in_hw d) s
      ]

module _ {W : Type 0} (tc : Kernel W) where
  -- The loop over the survivors, with `check=False`.
  unfoldable pub reapply_all : String → List NatEntry → Action W (Unit {0})
  reapply_all port [] = pure tt
  reapply_all port (e ∷ entries) = elim (reapply_cmd port e) [
    | none ↦ reapply_all port entries
    | some cmd ↦ do run_tc tc cmd false; reapply_all port entries
  ]

  unfoldable pub remove_nat : String → Action (NatState W) (Unit {0})
  remove_nat rule_id s = elim (lookup rule_id s.nat_db) [
    | none ↦ (err (tc_error ("NAT rule " ++ (rule_id ++ " not found"))), s)
    | some entry ↦
        let t = forget rule_id s in
        (do
          on_world (run_tc tc (flush_band_cmd (port_of entry)) false)
          on_world (reapply_all (port_of entry) (values t.nat_db)))
          t
  ]

  unfoldable pub flush_nat : Action (NatState W) ℕ
  flush_nat = do
    count ← gets (λ s. length s.nat_db)
    on_world (run_tc tc (flush_band_cmd internet_port) false)
    on_world (run_tc tc (flush_band_cmd client_port) false)
    modify (λ s. record s { nat_db = []; signature_index = [] })
    pure count

unfoldable pub list_nat : {W : Type 0} → NatState W → List NatEntry
list_nat s = values s.nat_db

-- A call of the port pools on their part of the state.
unfoldable pub on_snat : {W A : Type 0} → Action SnatState A → Action (NatState W) A
on_snat m s = let (r, p) = m s.snat in (r, record s { snat = p })

unfoldable pub allocate_masquerade_port :
    {W : Type 0} → String → Connection → ℕ → Action (NatState W) (Option ℕ)
allocate_masquerade_port public_ip connection now = on_snat (allocate_port public_ip connection now)

unfoldable pub release_masquerade_port : {W : Type 0} → String → ℕ → Action (NatState W) Bool
release_masquerade_port public_ip port = on_snat (release_port public_ip port)

unfoldable pub get_snat_pool_stats :
    {W : Type 0} → (ℕ → ℕ → ℕ) → Option String → NatState W → List PoolStats
get_snat_pool_stats percent public_ip s = get_pool_stats percent public_ip s.snat
