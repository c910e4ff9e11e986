-- ===== src/Nat/Tests.antt =====
-- Witnesses and runs of the NAT calls, under a kernel that notes the commands.
use Prim.Native.String.{◌++◌}
use technicolor_haze_prism.Base.{
  ◌≡◌, refl, String, true, false, none, some, List, [], ◌∷◌, text_key, ok, err, tc_error, lookup,
  insert, erase, drop_where, after_prefix,
}
use technicolor_haze_prism.Tc.{Completed, tc_failed, run_tc, get_last_handle, check_in_hw}
use technicolor_haze_prism.Tc.TwoSided.{Log, recorder}
use technicolor_haze_prism.Snat.{SnatState, init, release_port, get_pool_stats}
use technicolor_haze_prism.Nat.{NatState, Target, Draw}
use technicolor_haze_prism.Nat.Operations.{
  find_existing_nat, add_port_forward, add_entry, install, on_world, register, remove_nat, list_nat,
  release_masquerade_port, get_snat_pool_stats, on_snat,
}
use technicolor_haze_prism.Nat.Invariant.{Inv}
use technicolor_haze_prism.Nat.Add.{
  SameBooks, Request, dnat, forward, request_entry, add_nat, add_nat_atomic, IsFresh,
}
use technicolor_haze_prism.Nat.Repeat.{add_nat_idempotent}
use technicolor_haze_prism.Nat.Remove.{Forgotten, remove_nat_forgets}
use technicolor_haze_prism.Nat.History.{
  no_rules, Reaches, here, then_step, adding, Reaches-no_rules,
}
use technicolor_haze_prism.Nat.Commands.{remove_nat_restores, home}
use technicolor_haze_prism.Nat.Table.{side, command_of, commands_on}
use technicolor_haze_prism.Nat.Adding.{Runs, add_nat-Runs}

abbrev digest : String → String
digest text = "sha:" ++ text

abbrev answers : List String → Log → Completed
answers args log = record { returncode = 0; stdout = "handle 0x1 in_hw"; stderr = "" }

abbrev refuses : List String → Log → Completed
refuses args log = record { returncode = 2; stdout = ""; stderr = "no space" }

abbrev no_ports : SnatState
no_ports = init 3

abbrev empty : NatState Log
empty = no_rules [] no_ports

abbrev web : Target
web = record {
  public_ip = "203.0.113.1";
  public_port = 80;
  private_ip = "10.0.0.5";
  private_port = 8080;
  protocol = "tcp";
}

abbrev ask : Request
ask = forward web

abbrev first_draw : Draw
first_draw = record { id = "nat-1"; time = 5 }

abbrev second_draw : Draw
second_draw = record { id = "nat-2"; time = 9 }

-- A state with one rule, written out.
abbrev one_rule : NatState Log
one_rule = record {
  world = [];
  nat_db = ("nat-1", request_entry ask first_draw true) ∷ [];
  signature_index = ("sha:forward|203.0.113.1|80|10.0.0.5|8080|tcp", "nat-1") ∷ [];
  snat = no_ports;
}

fresh : IsFresh (recorder answers) digest first_draw empty
unfolding lookup
fresh = (refl, refl)

refused_command :
    (add_nat (recorder refuses) digest ask first_draw empty).0
    ≡ err (tc_error "tc failed: no space")
unfolding add_nat add_port_forward add_entry install on_world find_existing_nat register lookup
    insert run_tc get_last_handle check_in_hw after_prefix tc_failed
refused_command = refl

accepted :
    (add_nat (recorder answers) digest ask first_draw empty).0
    ≡ ok (request_entry ask first_draw true)
unfolding add_nat add_port_forward add_entry install on_world find_existing_nat register lookup
    insert run_tc get_last_handle check_in_hw after_prefix
accepted = refl

add_nat_atomic_example : SameBooks empty (add_nat (recorder refuses) digest ask first_draw empty).1
add_nat_atomic_example =
    add_nat_atomic (recorder refuses) digest ask first_draw empty refused_command

reached :
    Reaches
      (recorder answers)
      digest
      empty
      (add_nat (recorder answers) digest ask first_draw empty).1
reached = then_step here (adding ask first_draw fresh)

Reaches-no_rules_example : Inv digest (add_nat (recorder answers) digest ask first_draw empty).1
Reaches-no_rules_example =
    Reaches-no_rules (recorder answers) digest [] no_ports
      (add_nat (recorder answers) digest ask first_draw empty).1 reached

add_nat_idempotent_example :
    add_nat
      (recorder answers)
      digest
      ask
      second_draw
      (add_nat (recorder answers) digest ask first_draw empty).1
    ≡ (
      ok (request_entry ask first_draw true),
      (add_nat (recorder answers) digest ask first_draw empty).1,
    )
add_nat_idempotent_example =
    add_nat_idempotent (recorder answers) digest ask first_draw second_draw empty
      (request_entry ask first_draw true) refl accepted

programmed : add_nat (recorder answers) digest ask first_draw empty ≡ (
  ok (request_entry ask first_draw true),
  (add_nat (recorder answers) digest ask first_draw empty).1,
)
unfolding add_nat add_port_forward add_entry install on_world find_existing_nat register lookup
    insert run_tc get_last_handle check_in_hw after_prefix
programmed = refl

add_nat-Runs_example :
    Runs
      (request_entry ask first_draw true)
      empty
      (add_nat (recorder answers) digest ask first_draw empty).1
unfolding find_existing_nat lookup
add_nat-Runs_example =
    add_nat-Runs answers digest first_draw empty ask (request_entry ask first_draw true)
      (add_nat (recorder answers) digest ask first_draw empty).1 (refl, refl, refl) refl programmed

added-Inv : Inv digest (add_nat (recorder answers) digest ask first_draw empty).1
added-Inv =
    Reaches-no_rules (recorder answers) digest [] no_ports
      (add_nat (recorder answers) digest ask first_draw empty).1 reached

added_at :
    lookup "nat-1" (add_nat (recorder answers) digest ask first_draw empty).1.nat_db
    ≡ some (request_entry ask first_draw true)
unfolding add_nat add_port_forward add_entry install on_world find_existing_nat register lookup
    insert run_tc get_last_handle check_in_hw after_prefix
added_at = refl

remove_nat_forgets_example :
    Forgotten digest "nat-1"
      (request_entry ask first_draw true)
      (add_nat (recorder answers) digest ask first_draw empty).1
      (remove_nat
        (recorder refuses)
        "nat-1"
        (add_nat (recorder answers) digest ask first_draw empty).1).1
remove_nat_forgets_example =
    remove_nat_forgets (recorder refuses) digest "nat-1" (request_entry ask first_draw true)
      (add_nat (recorder answers) digest ask first_draw empty).1 added-Inv added_at

abbrev two_rules : NatState Log
two_rules = record one_rule {
  nat_db =
      ("nat-1", request_entry ask first_draw true)
      ∷ ("nat-2", request_entry (dnat web) second_draw true)
      ∷ [];
}

remove_nat_restores_example : remove_nat (recorder answers) "nat-1" two_rules ≡ (
  ok tt,
  record two_rules {
    nat_db = ("nat-2", request_entry (dnat web) second_draw true) ∷ [];
    signature_index = [];
    world =
        ("filter" ∷ "del" ∷ "dev" ∷ "pf0vf0" ∷ "ingress" ∷ "prio" ∷ "20" ∷ [])
        ∷ command_of (request_entry (dnat web) second_draw true)
        ∷ [];
  },
)
unfolding lookup home erase drop_where commands_on side
remove_nat_restores_example =
    remove_nat_restores answers "nat-1" (request_entry ask first_draw true) two_rules refl

listed : list_nat one_rule ≡ request_entry ask first_draw true ∷ []
unfolding list_nat
listed = refl

no_pool : (release_masquerade_port "203.0.113.1" 1024 one_rule).0 ≡ ok false
unfolding release_masquerade_port on_snat release_port lookup init
no_pool = refl

no_stats : get_snat_pool_stats (λ a b. 0) none one_rule ≡ get_pool_stats (λ a b. 0) none no_ports
unfolding get_snat_pool_stats
no_stats = refl
