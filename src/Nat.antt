-- ===== src/Nat.antt =====
-- tc-firewall/src/nat_manager.py: SNAT, DNAT and port forwarding rules, kept in `nat_db` and
-- programmed by `tc`. The module's dicts and the SNAT ports are one state, beside the kernel's world.
-- What a call draws from outside is an argument: the eight letters of a new uuid, the clock, and the
-- hash of a text.
pub mod Operations
pub mod Invariant
pub mod Add
pub mod Repeat
pub mod History
pub mod Remove
pub mod Table
pub mod Commands
pub mod Adding
mod Tests
use Prim.Native.String.{◌++◌}
use technicolor_haze_prism.Base.{
  ℕ, String, Bool, true, false, not, ◌&&◌, ◌||◌, Option, none, some, List, [], ◌∷◌, Dict, text_key,
  nat_eq, if◌then◌else◌, ◌==◌, Action, Result, ok, err, tc_error, pure, raise, gets, modify,
  or_raise, ◌>>=◌, ◌>>◌, str, text_given, number_given, number_or_empty, join_bars, lookup, insert,
  erase, contains, keys, values, length, or_else, is_some, or_raise, key_error,
}
use technicolor_haze_prism.Snat
use technicolor_haze_prism.Snat.{SnatState, Connection, allocate_port, release_port}
use technicolor_haze_prism.Tc.{
  Kernel, internet_port, client_port, run_tc, get_last_handle, check_in_hw,
}

abbrev pub nat_priority : ℕ
nat_priority = 20

pub record NatEntry : Type 0 where
  pub id : String
  pub tenant_id : Option String
  -- "snat", "dnat" or "forward"
  pub type : String
  pub mode : Option String
  pub public_ip : String
  pub public_port : Option ℕ
  pub private_ip : String
  pub private_port : Option ℕ
  pub protocol : Option String
  pub in_hw : Bool
  pub packets : ℕ
  pub bytes : ℕ
  pub created_at : ℕ

pub record NatState (W : Type 0) : Type 0 where
  pub world : W
  pub nat_db : Dict String NatEntry
  pub signature_index : Dict String String
  pub snat : SnatState

-- The arguments of `add_dnat` and `add_port_forward`.
pub record Target : Type 0 where
  pub public_ip : String
  pub public_port : ℕ
  pub private_ip : String
  pub private_port : ℕ
  pub protocol : String

-- What one call draws from outside: the id of a new rule and the time.
pub record Draw : Type 0 where
  pub id : String
  pub time : ℕ

-- The text that `_compute_nat_signature` hashes.
unfoldable pub snat_signature : String → String → String
unfolding join_bars
snat_signature private_ip public_ip = join_bars ("snat" ∷ private_ip ∷ public_ip ∷ [])

unfoldable pub target_signature : String → Target → String
unfolding join_bars str
target_signature nat_type t = join_bars (
    nat_type
    ∷ t.public_ip
    ∷ str t.public_port
    ∷ t.private_ip
    ∷ str t.private_port
    ∷ t.protocol
    ∷ [])

unfoldable pub snat_cmd : String → String → List String
unfolding str
snat_cmd private_ip public_ip =
    "filter"
    ∷ "add"
    ∷ "dev"
    ∷ client_port
    ∷ "ingress"
    ∷ "protocol"
    ∷ "ip"
    ∷ "prio"
    ∷ str nat_priority
    ∷ "flower"
    ∷ "src_ip"
    ∷ private_ip
    ∷ "action"
    ∷ "pedit"
    ∷ "ex"
    ∷ "munge"
    ∷ "ip"
    ∷ "src"
    ∷ "set"
    ∷ public_ip
    ∷ "action"
    ∷ "mirred"
    ∷ "egress"
    ∷ "redirect"
    ∷ "dev"
    ∷ internet_port
    ∷ []

-- The match of a DNAT or forwarding rule, up to the actions.
target_match : String → String → String → List String → List String
unfolding str
target_match public_ip protocol public_port actions =
    "filter"
    ∷ "add"
    ∷ "dev"
    ∷ internet_port
    ∷ "ingress"
    ∷ "protocol"
    ∷ "ip"
    ∷ "prio"
    ∷ str nat_priority
    ∷ "flower"
    ∷ "dst_ip"
    ∷ public_ip
    ∷ "ip_proto"
    ∷ protocol
    ∷ "dst_port"
    ∷ public_port
    ∷ actions

redirect_to_client : List String
redirect_to_client = "action" ∷ "mirred" ∷ "egress" ∷ "redirect" ∷ "dev" ∷ client_port ∷ []

unfoldable pub dnat_cmd : Target → List String
unfolding target_match redirect_to_client
dnat_cmd t =
    target_match t.public_ip t.protocol (str t.public_port) (
      "action" ∷ "pedit" ∷ "ex" ∷ "munge" ∷ "ip" ∷ "dst" ∷ "set" ∷ t.private_ip
      ∷ redirect_to_client)

unfoldable pub forward_cmd : Target → List String
unfolding target_match redirect_to_client
forward_cmd t = target_match t.public_ip t.protocol (str t.public_port) (
    "action"
    ∷ "pedit"
    ∷ "ex"
    ∷ "munge"
    ∷ "ip"
    ∷ "dst"
    ∷ "set"
    ∷ t.private_ip
    ∷ "action"
    ∷ "pedit"
    ∷ "ex"
    ∷ "munge"
    ∷ t.protocol
    ∷ "dport"
    ∷ "set"
    ∷ str t.private_port
    ∷ redirect_to_client)

-- `_reapply_snat`
unfoldable pub reapply_snat_cmd : NatEntry → List String
unfolding snat_cmd
reapply_snat_cmd e = snat_cmd e.private_ip e.public_ip

-- `str(x)` of an optional port.
port_text : Option ℕ → String
unfolding str
port_text none = "None"
port_text (some port) = str port

-- `entry.protocol or "tcp"`
protocol_or_tcp : Option String → String
protocol_or_tcp none = "tcp"
protocol_or_tcp (some protocol) = if protocol == "" then "tcp" else protocol

-- `_reapply_nat_rule`
unfoldable pub reapply_target_cmd : NatEntry → List String
unfolding target_match redirect_to_client port_text protocol_or_tcp
reapply_target_cmd e =
    let protocol = protocol_or_tcp e.protocol in
    if e.type == "forward" && number_given e.public_port && number_given e.private_port
    then target_match e.public_ip protocol (port_text e.public_port) (
        "action"
        ∷ "pedit"
        ∷ "ex"
        ∷ "munge"
        ∷ "ip"
        ∷ "dst"
        ∷ "set"
        ∷ e.private_ip
        ∷ "action"
        ∷ "pedit"
        ∷ "ex"
        ∷ "munge"
        ∷ protocol
        ∷ "dport"
        ∷ "set"
        ∷ port_text e.private_port
        ∷ redirect_to_client)
    else target_match e.public_ip protocol (port_text e.public_port) (
        "action" ∷ "pedit" ∷ "ex" ∷ "munge" ∷ "ip" ∷ "dst" ∷ "set" ∷ e.private_ip
        ∷ redirect_to_client)

abbrev pub snat_entry : String → String → String → Bool → Draw → NatEntry
snat_entry private_ip public_ip mode in_hw d = record {
  id = d.id;
  tenant_id = none;
  type = "snat";
  mode = some mode;
  public_ip = public_ip;
  public_port = none;
  private_ip = private_ip;
  private_port = none;
  protocol = none;
  in_hw = in_hw;
  packets = 0;
  bytes = 0;
  created_at = d.time;
}

abbrev pub target_entry : String → Target → Bool → Draw → NatEntry
target_entry nat_type t in_hw d = record {
  id = d.id;
  tenant_id = none;
  type = nat_type;
  mode = none;
  public_ip = t.public_ip;
  public_port = some t.public_port;
  private_ip = t.private_ip;
  private_port = some t.private_port;
  protocol = some t.protocol;
  in_hw = in_hw;
  packets = 0;
  bytes = 0;
  created_at = d.time;
}
