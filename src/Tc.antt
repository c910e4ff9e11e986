-- ===== src/Tc.antt =====
-- tc-firewall/src/tc_manager.py: the commands that the daemon gives to `tc`, and the two readings of
-- its output that decide anything. The kernel is a parameter: a world of any type, and what running
-- `tc` with some arguments does to it and answers.
pub mod Commands
pub mod TwoSided
pub mod Stats
mod Tests
use Prim.Native.Char.{code}
use Prim.Native.String.{◌++◌}
use technicolor_haze_prism.Base.{
  ℕ, zero, suc, String, Bool, true, false, not, ◌&&◌, ◌||◌, Option, none, some, List, [], ◌∷◌,
  ◌++◌ as ◌+++◌, text_key, nat_eq, leb, if◌then◌else◌, ◌==◌, Action, ok, err, tc_error, os_error,
  pure, raise, Result, ◌>>=◌, ◌>>◌, str, text_given, number_given, after_prefix, occurs_in, is_some,
  strip, skip_spaces, first_is_space,
}

abbrev pub internet_port : String
internet_port = "pf0vf0"

abbrev pub client_port : String
client_port = "pf0vf3"

-- `subprocess.CompletedProcess`; a process that a signal ended has a return code other than 0 too.
pub record Completed : Type 0 where
  pub returncode : ℕ
  pub stdout : String
  pub stderr : String

-- `failed`: `subprocess.run` itself raises, FileNotFoundError when there is no `tc` or TimeoutExpired
-- when it takes ten seconds; both are `os_error`.
pub data Reply : Type 0 where
  completed : Completed → Reply
  failed : Reply

-- What running `tc` with these arguments does to the world and answers.
abbrev pub Kernel : Type 0 → Type 0
Kernel W = List String → W → Reply × W

unfoldable pub tc_failed : String → String
unfolding strip
tc_failed stderr = "tc failed: " ++ strip stderr

-- `[0-9a-f]*`
hex_digits : String → String
hex_digits String.[] = String.[]
hex_digits (String.◌∷◌ c text) =
    let rest = hex_digits text in
    if (leb b'0' (code c) && leb (code c) b'9') || (leb b'a' (code c) && leb (code c) b'f')
    then String.◌∷◌ c rest
    else String.[]

-- `handle\s+(0x[0-9a-f]+)` at the head of the text: the group.
match_handle : String → Option String
unfolding after_prefix first_is_space skip_spaces hex_digits
match_handle text = elim (after_prefix "handle" text) [
  | none ↦ none
  | some rest ↦ elim (after_prefix "0x" (skip_spaces rest)) [
    | none ↦ none
    | some number ↦
        if first_is_space rest && not (hex_digits number == "")
        then some ("0x" ++ hex_digits number)
        else none
  ]
]

-- `re.findall`. No match can begin inside another: after its first letter a match has no `h`.
unfoldable pub find_handles : String → List String
unfolding match_handle
find_handles String.[] = []
find_handles (String.◌∷◌ c text) =
    let rest = find_handles text in
    elim (match_handle (String.◌∷◌ c text)) [ none ↦ rest | some handle ↦ handle ∷ rest ]

-- `handles[-1] if handles else ""`
last_or_empty : List String → String
last_or_empty [] = ""
last_or_empty (h ∷ []) = h
last_or_empty (h ∷ i ∷ rest) = last_or_empty (i ∷ rest)

-- `re.search(r"(?<!not_)in_hw", text)`: `before` is the text before the position, backwards.
unfoldable pub search_in_hw : String → String → Bool
search_in_hw before String.[] = false
search_in_hw before (String.◌∷◌ c text) =
    let rest = search_in_hw (String.◌∷◌ c before) text in
    if is_some (after_prefix "in_hw" (String.◌∷◌ c text))
      && not (is_some (after_prefix "_ton" before))
    then true
    else rest

-- `protocol and protocol != "any" and protocol != "ip"`
pub names_protocol : String → Bool
names_protocol protocol = not (protocol == "") && not (protocol == "any") && not (protocol == "ip")

-- `protocol in ("tcp", "udp")`
pub has_ports : String → Bool
has_ports protocol = protocol == "tcp" || protocol == "udp"

-- What a rule matches on.
pub record Match : Type 0 where
  pub src_ip : Option String
  pub dst_ip : Option String
  pub src_port : Option ℕ
  pub dst_port : Option ℕ
  pub protocol : String
  pub priority : ℕ

-- "Swap src/dst for the reverse path"
unfoldable pub reverse_match : Match → Match
reverse_match m = record m {
  src_ip = m.dst_ip;
  dst_ip = m.src_ip;
  src_port = m.dst_port;
  dst_port = m.src_port;
}

text_option : String → Option String → List String
text_option name none = []
text_option name (some value) = if value == "" then [] else name ∷ value ∷ []

port_option : String → Option ℕ → List String
port_option name none = []
port_option name (some port) = if nat_eq port 0 then [] else name ∷ str port ∷ []

unfoldable pub build_flower_cmd : String → Match → List String
unfolding names_protocol has_ports text_option port_option
build_flower_cmd dev m =
    "filter"
    ∷ "add"
    ∷ "dev"
    ∷ dev
    ∷ "ingress"
    ∷ "protocol"
    ∷ "ip"
    ∷ "prio"
    ∷ str m.priority
    ∷ "flower"
    ∷ ((if names_protocol m.protocol then "ip_proto" ∷ m.protocol ∷ [] else [])
        +++ (text_option "src_ip" m.src_ip
            +++ (text_option "dst_ip" m.dst_ip
                +++ ((if has_ports m.protocol then port_option "src_port" m.src_port else [])
                    +++ (if has_ports m.protocol then port_option "dst_port" m.dst_port else [])))))

unfoldable pub show_cmd : String → ℕ → List String
show_cmd dev priority = "filter" ∷ "show" ∷ "dev" ∷ dev ∷ "ingress" ∷ "prio" ∷ str priority ∷ []

unfoldable pub delete_cmd : String → String → ℕ → List String
delete_cmd dev handle priority =
    "filter"
    ∷ "del"
    ∷ "dev"
    ∷ dev
    ∷ "ingress"
    ∷ "prio"
    ∷ str priority
    ∷ "handle"
    ∷ handle
    ∷ "flower"
    ∷ []

module _ {W : Type 0} (tc : Kernel W) where
  unfoldable pub checked : Bool → Reply → Result Completed
  checked check failed = err os_error
  checked check (completed c) =
      if check && not (nat_eq c.returncode 0) then err (tc_error (tc_failed c.stderr)) else ok c

  -- `_run_tc`
  unfoldable pub run_tc : List String → Bool → Action W Completed
  unfolding checked
  run_tc args check w = let (reply, v) = tc args w in (checked check reply, v)

  unfoldable pub ensure_ingress_qdisc : String → Action W (Unit {0})
  unfolding run_tc
  ensure_ingress_qdisc port = do
    shown ← run_tc ("qdisc" ∷ "show" ∷ "dev" ∷ port ∷ "ingress" ∷ []) false
    if occurs_in "ingress" shown.stdout
        then pure tt
        else do run_tc ("qdisc" ∷ "add" ∷ "dev" ∷ port ∷ "ingress" ∷ []) true; pure tt

  unfoldable pub get_last_handle : String → ℕ → Action W String
  unfolding run_tc show_cmd find_handles last_or_empty
  get_last_handle dev priority = do
    shown ← run_tc (show_cmd dev priority) false
    pure (if nat_eq shown.returncode 0 then last_or_empty (find_handles shown.stdout) else "")

  unfoldable pub check_in_hw : String → String → ℕ → Action W Bool
  unfolding run_tc show_cmd search_in_hw
  check_in_hw port handle priority = do
    shown ← run_tc (show_cmd port priority) false
    pure (nat_eq shown.returncode 0 && search_in_hw "" shown.stdout)

  unfoldable pub add_redirect_rule : String → String → Match → Action W String
  unfolding run_tc build_flower_cmd get_last_handle
  add_redirect_rule dev target m = do
    run_tc
        (build_flower_cmd dev m
          +++ ("action" ∷ "mirred" ∷ "egress" ∷ "redirect" ∷ "dev" ∷ target ∷ []))
        true
    get_last_handle dev m.priority

  unfoldable pub add_drop_rule : String → Match → Action W String
  unfolding run_tc build_flower_cmd get_last_handle
  add_drop_rule dev m = do
    run_tc (build_flower_cmd dev m +++ ("action" ∷ "drop" ∷ [])) true
    get_last_handle dev m.priority

  -- With the default ports, as the daemon calls it.
  unfoldable pub add_allow_rule : Match → Action W (String × String)
  unfolding add_redirect_rule reverse_match
  add_allow_rule m = do
    fwd_handle ← add_redirect_rule internet_port client_port m
    rev_handle ← add_redirect_rule client_port internet_port (reverse_match m)
    pure (fwd_handle, rev_handle)

  unfoldable pub add_deny_rule : Match → Action W (String × String)
  unfolding add_drop_rule reverse_match
  add_deny_rule m = do
    fwd_handle ← add_drop_rule internet_port m
    rev_handle ← add_drop_rule client_port (reverse_match m)
    pure (fwd_handle, rev_handle)

  -- An empty handle is logged and nothing is run.
  unfoldable pub remove_rule : String → String → ℕ → Action W (Unit {0})
  unfolding run_tc delete_cmd
  remove_rule dev handle priority =
      if handle == "" then pure tt else do run_tc (delete_cmd dev handle priority) true; pure tt

  unfoldable pub flush_rules : String → Action W (Unit {0})
  unfolding run_tc
  flush_rules port = do run_tc ("filter" ∷ "del" ∷ "dev" ∷ port ∷ "ingress" ∷ []) false; pure tt
