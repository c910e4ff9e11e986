-- ===== src/Tc/Stats.antt =====
-- The reports of tc_manager.py: the rules and the counters that `tc filter show` prints, read back.
pub mod Blocks
use Prim.Native.Char.{code}
use technicolor_haze_prism.Base.{
  ℕ, zero, suc, ◌+◌, ◌≡◌, refl, ap, ◌∙◌, String, Bool, true, false, not, ◌&&◌, Option, none, some,
  List, [], ◌∷◌, ◌++◌, map, All, text_key, nat_eq, if◌then◌else◌, ◌==◌, Action, pure, ◌>>=◌,
  is_some, or_else, after_prefix, occurs_in, occurs_in_lower, strip, search, find_all, split_lines,
  key_word, key_number, and_then, spaces, some_number,
}
use technicolor_haze_prism.Tc.{Kernel, Completed, run_tc, find_handles, last_or_empty}

pub record TcRuleStats : Type 0 where
  pub handle : String
  pub priority : ℕ
  pub protocol : String
  pub in_hw : Bool
  pub packets : ℕ
  pub bytes : ℕ
  pub action : String
  pub match_src : Option String
  pub match_dst : Option String
  pub match_sport : Option ℕ
  pub match_dport : Option ℕ

-- `.*handle\s+(0x[0-9a-f]+)`: the greedy `.*` finds the last handle of the line.
last_handle : String → Option String
unfolding find_handles last_or_empty
last_handle text =
    if last_or_empty (find_handles text) == ""
    then none
    else some (last_or_empty (find_handles text))

-- `pref\s+(\d+)\s+flower.*handle\s+(0x[0-9a-f]+)` at the head of the text: both groups.
header_at : String → Option (ℕ × String)
unfolding spaces some_number last_handle
header_at text = and_then (after_prefix "pref" text) (λ t. and_then (spaces t) (λ u.
    and_then (some_number u) (λ pref. and_then (spaces pref.1) (λ v.
      and_then (after_prefix "flower" v)
        (λ rest. and_then (last_handle rest) (λ handle. some (pref.0, handle)))))))

unfoldable pub read_header : String → Option (ℕ × String)
unfolding search header_at
read_header line = search header_at line

-- `Sent\s+(\d+)\s+bytes\s+(\d+)\s+pkt` at the head of the text: both groups.
sent_at : String → Option (ℕ × ℕ)
unfolding spaces some_number
sent_at text = and_then (after_prefix "Sent" text) (λ t. and_then (spaces t) (λ u.
    and_then (some_number u) (λ sent. and_then (spaces sent.1) (λ v.
      and_then (after_prefix "bytes" v) (λ w. and_then (spaces w) (λ x.
        and_then (some_number x) (λ count.
          and_then (spaces count.1)
            (λ y. and_then (after_prefix "pkt" y) (λ z. some (sent.0, count.0))))))))))

unfoldable pub new_rule : ℕ × String → TcRuleStats
new_rule header = record {
  handle = header.1;
  priority = header.0;
  protocol = "ip";
  in_hw = false;
  packets = 0;
  bytes = 0;
  action = "";
  match_src = none;
  match_dst = none;
  match_sport = none;
  match_dport = none;
}

-- A group that is found replaces the field.
found_or : {A : Type 0} → Option A → Option A → Option A
found_or none old = old
found_or (some a) old = some a

-- "check mirred first, "drop" can appear in stats lines"
read_action : String → String → String
unfolding occurs_in occurs_in_lower
read_action line old =
    if occurs_in "mirred" line
    then "redirect"
    else if occurs_in_lower "action" line && occurs_in "drop" line && not (occurs_in "dropped" line)
    then "drop"
    else old

-- What a line that is no header adds to the rule above it.
unfoldable pub read_detail : TcRuleStats → String → TcRuleStats
unfolding search key_word key_number sent_at found_or read_action occurs_in
read_detail rule line = record rule {
  in_hw = if occurs_in "in_hw" line && not (occurs_in "not_in_hw" line) then true else rule.in_hw;
  packets = or_else (and_then (search sent_at line) (λ sent. some sent.1)) rule.packets;
  bytes = or_else (and_then (search sent_at line) (λ sent. some sent.0)) rule.bytes;
  action = read_action line rule.action;
  match_src = found_or (search (key_word "src_ip") line) rule.match_src;
  match_dst = found_or (search (key_word "dst_ip") line) rule.match_dst;
  match_sport = found_or (search (key_number "src_port") line) rule.match_sport;
  match_dport = found_or (search (key_number "dst_port") line) rule.match_dport;
}

-- The variables of the loop.
pub record Parsing : Type 0 where
  rules : List TcRuleStats
  current_rule : Option TcRuleStats

-- `if current_rule: rules.append(current_rule)`
append_current : Parsing → List TcRuleStats
append_current s = elim s.current_rule [ none ↦ s.rules | some rule ↦ s.rules ++ (rule ∷ []) ]

parse_line : Parsing → String → Parsing
unfolding append_current new_rule
parse_line s line = elim (read_header line) [
  | some header ↦ record { rules = append_current s; current_rule = some (new_rule header) }
  | none ↦ elim s.current_rule [
    | none ↦ s
    | some rule ↦ record s { current_rule = some (read_detail rule line) }
  ]
]

parse_lines : Parsing → List String → Parsing
unfolding parse_line
parse_lines s [] = s
parse_lines s (line ∷ lines) = parse_lines (parse_line s line) lines

abbrev no_rules : Parsing
no_rules = record { rules = []; current_rule = none }

-- `_parse_tc_filter_output`
parse_tc_filter_output : String → List TcRuleStats
unfolding parse_lines append_current split_lines
parse_tc_filter_output output = append_current (parse_lines no_rules (split_lines output))

-- The totals of `get_stats`.
pub record Totals : Type 0 where
  pub packets : ℕ
  pub bytes : ℕ

sum_sent : List (ℕ × ℕ) → Totals
sum_sent [] = record { packets = 0; bytes = 0 }
sum_sent (sent ∷ rest) = record {
  packets = sent.1 + (sum_sent rest).packets;
  bytes = sent.0 + (sum_sent rest).bytes;
}

-- What `list_rules` answers of a process that ended.
unfoldable pub rules_shown : Completed → List TcRuleStats
unfolding parse_tc_filter_output strip
rules_shown result =
    if not (nat_eq result.returncode 0)
    then []
    else if strip result.stdout == ""
    then []
    else parse_tc_filter_output result.stdout

module _ {W : Type 0} (tc : Kernel W) where
  unfoldable pub list_rules : String → Action W (List TcRuleStats)
  unfolding run_tc rules_shown
  list_rules port = do
    result ← run_tc tc ("filter" ∷ "show" ∷ "dev" ∷ port ∷ "ingress" ∷ []) false
    pure (rules_shown result)

  unfoldable pub get_stats : String → Action W Totals
  unfolding run_tc find_all sent_at sum_sent
  get_stats port = do
    result ← run_tc tc ("-s" ∷ "filter" ∷ "show" ∷ "dev" ∷ port ∷ "ingress" ∷ []) false
    pure (
        if nat_eq result.returncode 0
        then sum_sent (find_all sent_at result.stdout)
        else record { packets = 0; bytes = 0 })
