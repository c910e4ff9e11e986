-- ===== src/Tc/Commands.antt =====
-- The commands of tc_manager.py: what a filter command says of the match, and which commands a
-- two-sided rule runs, in what order, on every outcome.
use technicolor_haze_prism.Base.{
  ℕ, zero, suc, ◌≡◌, refl, ap, ◌∙◌, String, Bool, true, not, ◌&&◌, Option, none, some, List, [],
  ◌∷◌, ◌++◌, Dict, text_key, nat_eq, if◌then◌else◌, ◌==◌, lookup, arith, str,
}
use technicolor_haze_prism.Tc.{
  Match, build_flower_cmd, names_protocol, has_ports, text_option, port_option,
}

-- What a filter command says, read back: ten words up to `flower`, then names with their values.
unfoldable pub read_options : List String → Dict String String
read_options [] = []
read_options (name ∷ []) = []
read_options (name ∷ value ∷ rest) = (name, value) ∷ read_options rest

unfoldable pub skip_words : ℕ → List String → List String
skip_words zero words = words
skip_words (suc n) [] = []
skip_words (suc n) (word ∷ words) = skip_words n words

-- What a match asks of a field: an empty text or port 0 asks nothing.
unfoldable pub text_asked : Option String → Option String
text_asked none = none
text_asked (some value) = if value == "" then none else some value

unfoldable pub port_asked : Bool → Option ℕ → Option String
port_asked tested none = none
port_asked tested (some port) = if tested && not (nat_eq port 0) then some (str port) else none

-- The protocol that a match asks for, where the wildcards and no text ask for none, and whether it is
-- one with ports.
abbrev pub protocol_asked : String → Option String
protocol_asked protocol =
    if protocol == ""
    then none
    else if protocol == "ip"
    then none
    else if protocol == "any"
    then none
    else some protocol

abbrev pub ports_asked : String → Bool
ports_asked protocol = if protocol == "udp" then true else protocol == "tcp"

pub record Says (m : Match) (d : Dict String String) : Type 0 where
  pub protocol : lookup "ip_proto" d ≡ protocol_asked m.protocol
  pub src_ip : lookup "src_ip" d ≡ text_asked m.src_ip
  pub dst_ip : lookup "dst_ip" d ≡ text_asked m.dst_ip
  pub src_port : lookup "src_port" d ≡ port_asked (ports_asked m.protocol) m.src_port
  pub dst_port : lookup "dst_port" d ≡ port_asked (ports_asked m.protocol) m.dst_port

append_nil : {A : Type 0} (xs : List A) → xs ++ [] ≡ xs
append_nil [] = refl
append_nil (x ∷ xs) = ap (λ l. x ∷ l) (append_nil xs)

-- One option, or none.
piece : String → Option String → List String
piece name none = []
piece name (some value) = name ∷ value ∷ []

first_of : Option String → Option String → Option String
first_of none p = p
first_of (some value) p = some value

lookup-piece :
    (k name : String) (o : Option String) (rest : List String)
    → lookup k (read_options (piece name o ++ rest)) ≡ (
        if name == k
        then first_of o (lookup k (read_options rest))
        else lookup k (read_options rest))
unfolding piece read_options first_of lookup
lookup-piece k name none rest = ground (arith)
lookup-piece k name (some value) rest = ground (arith)

text_option-piece :
    (name : String) (o : Option String) → text_option name o ≡ piece name (text_asked o)
unfolding piece text_option text_asked
text_option-piece name none = refl
text_option-piece name (some value) = ground (arith)

port_option-piece :
    (tested : Bool) (name : String) (o : Option ℕ)
    → (if tested then port_option name o else []) ≡ piece name (port_asked tested o)
unfolding piece port_option port_asked
port_option-piece tested name none = ground (arith)
port_option-piece tested name (some port) = ground (arith)

protocol-piece :
    (named : Bool) (value : String)
    → (if named then "ip_proto" ∷ value ∷ [] else [])
      ≡ piece "ip_proto" (if named then some value else none)
unfolding piece
protocol-piece named value = ground (arith)

pieces : Option String → Option String → Option String → Option String → Option String → List String
pieces a b c d e =
    piece "ip_proto" a
    ++ (piece "src_ip" b
        ++ (piece "dst_ip" c ++ (piece "src_port" d ++ (piece "dst_port" e ++ []))))

build_flower_cmd-pieces :
    (dev : String) (m : Match)
    → skip_words 10 (build_flower_cmd dev m)
      ≡ pieces
          (if names_protocol m.protocol then some m.protocol else none)
          (text_asked m.src_ip)
          (text_asked m.dst_ip)
          (port_asked (has_ports m.protocol) m.src_port)
          (port_asked (has_ports m.protocol) m.dst_port)
unfolding build_flower_cmd pieces skip_words
build_flower_cmd-pieces dev m = rw (
  protocol-piece (names_protocol m.protocol) m.protocol,
  text_option-piece "src_ip" m.src_ip,
  text_option-piece "dst_ip" m.dst_ip,
  port_option-piece (has_ports m.protocol) "src_port" m.src_port,
  port_option-piece (has_ports m.protocol) "dst_port" m.dst_port,
  append_nil (piece "dst_port" (port_asked (has_ports m.protocol) m.dst_port)),
)

-- Each name of the five is found at its own piece.
record Found (a b c d e : Option String) (o : Dict String String) : Type 0 where
  at_protocol : lookup "ip_proto" o ≡ a
  at_src_ip : lookup "src_ip" o ≡ b
  at_dst_ip : lookup "dst_ip" o ≡ c
  at_src_port : lookup "src_port" o ≡ d
  at_dst_port : lookup "dst_port" o ≡ e

-- What a name finds, piece by piece.
seek :
    String
    → Option String
    → Option String
    → Option String
    → Option String
    → Option String
    → Option String
seek k a b c d e =
    let last = if "dst_port" == k then first_of e none else none in
    let fourth = if "src_port" == k then first_of d last else last in
    let third = if "dst_ip" == k then first_of c fourth else fourth in
    let second = if "src_ip" == k then first_of b third else third in
    if "ip_proto" == k then first_of a second else second

lookup-pieces :
    (k : String) (a b c d e : Option String)
    → lookup k (read_options (pieces a b c d e)) ≡ seek k a b c d e
unfolding pieces seek read_options lookup
lookup-pieces k a b c d e = rw (
  lookup-piece k "ip_proto" a (
      piece "src_ip" b ++ (piece "dst_ip" c ++ (piece "src_port" d ++ (piece "dst_port" e ++ [])))),
  lookup-piece k "src_ip" b
      (piece "dst_ip" c ++ (piece "src_port" d ++ (piece "dst_port" e ++ []))),
  lookup-piece k "dst_ip" c (piece "src_port" d ++ (piece "dst_port" e ++ [])),
  lookup-piece k "src_port" d (piece "dst_port" e ++ []),
  lookup-piece k "dst_port" e [],
)

first_of-none : (o : Option String) → first_of o none ≡ o
unfolding first_of
first_of-none none = refl
first_of-none (some value) = refl

pieces-Found : (a b c d e : Option String) → Found a b c d e (read_options (pieces a b c d e))
unfolding seek
pieces-Found a b c d e = record {
  at_protocol = lookup-pieces "ip_proto" a b c d e ∙ first_of-none a;
  at_src_ip = lookup-pieces "src_ip" a b c d e ∙ first_of-none b;
  at_dst_ip = lookup-pieces "dst_ip" a b c d e ∙ first_of-none c;
  at_src_port = lookup-pieces "src_port" a b c d e ∙ first_of-none d;
  at_dst_port = lookup-pieces "dst_port" a b c d e ∙ first_of-none e;
}

names_protocol-asked :
    (protocol : String)
    → (if names_protocol protocol then some protocol else none) ≡ protocol_asked protocol
unfolding names_protocol
names_protocol-asked protocol = ground arith

has_ports-asked : (protocol : String) → has_ports protocol ≡ ports_asked protocol
unfolding has_ports
has_ports-asked protocol = ground arith

-- The options of the filter command are the match: each field that is given, under its own name,
-- the protocol unless it is empty, "any" or "ip", the ports only for TCP and UDP, and no other value
-- under these names.
pub build_flower_cmd-Says :
    (dev : String) (m : Match) → Says m (read_options (skip_words 10 (build_flower_cmd dev m)))
build_flower_cmd-Says dev m = rw (build_flower_cmd-pieces dev m) (
    let f =
      pieces-Found (if names_protocol m.protocol then some m.protocol else none)
        (text_asked m.src_ip) (text_asked m.dst_ip) (port_asked (has_ports m.protocol) m.src_port)
        (port_asked (has_ports m.protocol) m.dst_port) in
    record {
      protocol = f.at_protocol ∙ names_protocol-asked m.protocol;
      src_ip = f.at_src_ip;
      dst_ip = f.at_dst_ip;
      src_port = f.at_src_port ∙ ap (λ b. port_asked b m.src_port) (has_ports-asked m.protocol);
      dst_port = f.at_dst_port ∙ ap (λ b. port_asked b m.dst_port) (has_ports-asked m.protocol);
    })
