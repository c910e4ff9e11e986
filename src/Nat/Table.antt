-- ===== src/Nat/Table.antt =====
-- The commands of nat_manager.py as a table, written out with no name of the code: the port and the
-- command of each type of rule.
use technicolor_haze_prism.Base.{
  ◌≡◌, refl, String, Bool, true, false, ◌&&◌, ◌||◌, Option, none, some, List, [], ◌∷◌, text_key,
  ◌==◌, if◌then◌else◌, str, arith, ltb, ℕ, number_given,
}
use technicolor_haze_prism.Tc.TwoSided.{Log}
use technicolor_haze_prism.Nat.{
  NatEntry, snat_cmd, reapply_snat_cmd, reapply_target_cmd, port_text, protocol_or_tcp,
}
use technicolor_haze_prism.Nat.Operations.{reapply_cmd}

-- The port that a type of rule is on, if it is a type of rule.
unfoldable pub side : String → Option String
side type =
    if type == "snat"
    then some "pf0vf3"
    else if type == "dnat" || type == "forward"
    then some "pf0vf0"
    else none

-- TCP, where no protocol is named.
unfoldable pub named_protocol : Option String → String
named_protocol none = "tcp"
named_protocol (some protocol) = if protocol == "" then "tcp" else protocol

unfoldable pub printed_port : Option ℕ → String
printed_port none = "None"
printed_port (some port) = str port

unfoldable pub from_1 : Option ℕ → Bool
from_1 none = false
from_1 (some port) = ltb 0 port

-- What is rewritten besides the destination address.
unfoldable pub rewrites : NatEntry → List String → List String
rewrites e rest =
    if e.type == "forward" && from_1 e.public_port && from_1 e.private_port
    then "action"
      ∷ "pedit"
      ∷ "ex"
      ∷ "munge"
      ∷ named_protocol e.protocol
      ∷ "dport"
      ∷ "set"
      ∷ printed_port e.private_port
      ∷ rest
    else rest

-- The command of a rule, written out: SNAT matches the private source on the client port, rewrites it
-- to the public address and redirects to the internet port; the others match the public address,
-- protocol and port on the internet port, rewrite the destination and redirect to the client port.
unfoldable pub command_of : NatEntry → List String
command_of e =
    if e.type == "snat"
    then "filter" ∷ "add" ∷ "dev" ∷ "pf0vf3" ∷ "ingress" ∷ "protocol" ∷ "ip" ∷ "prio" ∷ "20"
      ∷ "flower" ∷ "src_ip" ∷ e.private_ip ∷ "action" ∷ "pedit" ∷ "ex" ∷ "munge" ∷ "ip" ∷ "src"
      ∷ "set" ∷ e.public_ip ∷ "action" ∷ "mirred" ∷ "egress" ∷ "redirect" ∷ "dev" ∷ "pf0vf0" ∷ []
    else "filter"
      ∷ "add"
      ∷ "dev"
      ∷ "pf0vf0"
      ∷ "ingress"
      ∷ "protocol"
      ∷ "ip"
      ∷ "prio"
      ∷ "20"
      ∷ "flower"
      ∷ "dst_ip"
      ∷ e.public_ip
      ∷ "ip_proto"
      ∷ named_protocol e.protocol
      ∷ "dst_port"
      ∷ printed_port e.public_port
      ∷ "action"
      ∷ "pedit"
      ∷ "ex"
      ∷ "munge"
      ∷ "ip"
      ∷ "dst"
      ∷ "set"
      ∷ e.private_ip
      ∷ rewrites e ("action" ∷ "mirred" ∷ "egress" ∷ "redirect" ∷ "dev" ∷ "pf0vf3" ∷ [])

-- The commands of the rules of a port, in the order of the rules.
unfoldable pub commands_on : String → List NatEntry → Log
commands_on port [] = []
commands_on port (e ∷ entries) =
    let rest = commands_on port entries in
    elim (side e.type) [
      | none ↦ rest
      | some dev ↦ if dev == port then command_of e ∷ rest else rest
    ]

protocol_or_tcp-named_protocol : (p : Option String) → protocol_or_tcp p ≡ named_protocol p
unfolding protocol_or_tcp named_protocol
protocol_or_tcp-named_protocol none = refl
protocol_or_tcp-named_protocol (some p) = refl

port_text-printed_port : (p : Option ℕ) → port_text p ≡ printed_port p
unfolding port_text printed_port
port_text-printed_port none = refl
port_text-printed_port (some p) = refl

number_given-from_1 : (p : Option ℕ) → number_given p ≡ from_1 p
unfolding from_1
number_given-from_1 none = refl
number_given-from_1 (some p) = refl

eq_sym : (a b : String) → (a == b) ≡ (b == a)
eq_sym a b = ground (arith, text_key.same_iff a b, text_key.same_iff b a)

-- A type is not two.
type_once :
    (t : String) → (t == "snat") ≡ true → ((t == "dnat") ≡ false) × ((t == "forward") ≡ false)
type_once t h = go t ((text_key.same_iff t "snat").0 h)
  where
    go : (u : String) → u ≡ "snat" → ((u == "dnat") ≡ false) × ((u == "forward") ≡ false)
    go u e = (rw e refl, rw e refl)

-- The command that the code puts a rule back by, if any, is that of the table.
pub reapply_cmd-command_of :
    (port : String) (e : NatEntry)
    → reapply_cmd port e ≡ (elim (side e.type) [
      | none ↦ none
      | some dev ↦ if dev == port then some (command_of e) else none
    ])
unfolding reapply_cmd side command_of rewrites named_protocol printed_port from_1 reapply_snat_cmd
    reapply_target_cmd snat_cmd port_text protocol_or_tcp str
reapply_cmd-command_of port e = ground (
  arith,
  protocol_or_tcp-named_protocol e.protocol,
  port_text-printed_port e.public_port,
  port_text-printed_port e.private_port,
  number_given-from_1 e.public_port,
  number_given-from_1 e.private_port,
  eq_sym port "pf0vf3",
  eq_sym port "pf0vf0",
  type_once e.type,
)
