-- ===== src/Tc/Tests.antt =====
-- Witnesses and runs of the tc commands.
use technicolor_haze_prism.Base.{
  ◌≡◌, refl, String, true, false, none, some, List, [], ◌∷◌, ok, text_key, str, nat_eq,
  if◌then◌else◌, occurs_in, after_prefix, length, map, split_lines, strip,
}
use technicolor_haze_prism.Tc.{
  Completed, completed, Reply, Match, find_handles, last_or_empty, search_in_hw, build_flower_cmd,
  ensure_ingress_qdisc, check_in_hw, remove_rule, flush_rules, add_allow_rule,
}
use technicolor_haze_prism.Tc.Stats.{list_rules, get_stats, read_header, read_detail, new_rule}
use technicolor_haze_prism.Tc.Stats.Blocks.{Block, list_rules-blocks, block_rule}
use technicolor_haze_prism.Tc.Commands.{build_flower_cmd-Says, Says, read_options, skip_words}
use technicolor_haze_prism.Tc.TwoSided.{
  Log, recorder, TwoSided, redirect_cmd, add_allow_rule-TwoSided,
}

abbrev https : Match
https = record {
  src_ip = some "10.0.0.0/8";
  dst_ip = none;
  src_port = none;
  dst_port = some 443;
  protocol = "tcp";
  priority = 7;
}

build_flower_cmd-Says_example :
    Says https (read_options (skip_words 10 (build_flower_cmd "pf0vf0" https)))
build_flower_cmd-Says_example = build_flower_cmd-Says "pf0vf0" https

-- Every command succeeds but the third, which adds the second filter.
abbrev third_refused : List String → Log → Completed
third_refused args log = record {
  returncode = if nat_eq (length log) 2 then 2 else 0;
  stdout = "filter flower handle 0x1 \n in_hw";
  stderr = "no space";
}

add_allow_rule-TwoSided_example :
    TwoSided third_refused
      (redirect_cmd "pf0vf0" "pf0vf3" https)
      (redirect_cmd "pf0vf3" "pf0vf0" record {
        src_ip = https.dst_ip;
        dst_ip = https.src_ip;
        src_port = https.dst_port;
        dst_port = https.src_port;
        protocol = https.protocol;
        priority = https.priority;
      })
      "pf0vf0"
      "pf0vf3"
      7
      []
      (add_allow_rule (recorder third_refused) https []).0
      (add_allow_rule (recorder third_refused) https []).1
add_allow_rule-TwoSided_example = add_allow_rule-TwoSided third_refused https []

flower_cmd :
    build_flower_cmd "pf0vf0" https
    ≡ "filter" ∷ "add" ∷ "dev" ∷ "pf0vf0" ∷ "ingress" ∷ "protocol" ∷ "ip" ∷ "prio" ∷ "7" ∷ "flower"
      ∷ "ip_proto" ∷ "tcp" ∷ "src_ip" ∷ "10.0.0.0/8" ∷ "dst_port" ∷ "443" ∷ []
unfolding build_flower_cmd str
flower_cmd = refl

last_handle_found :
    last_or_empty (find_handles "flower chain 0 handle 0x1 \n flower handle  0x2a\n handle x")
    ≡ "0x2a"
unfolding last_or_empty find_handles
last_handle_found = refl

offloaded : search_in_hw "" "skip_sw in_hw in_hw_count 1" ≡ true
unfolding search_in_hw after_prefix
offloaded = refl

not_offloaded : search_in_hw "" "handle 0x1 not_in_hw" ≡ false
unfolding search_in_hw after_prefix
not_offloaded = refl

ensured : ensure_ingress_qdisc (recorder third_refused) "pf0vf0" [] ≡ (
  ok tt,
  ("qdisc" ∷ "show" ∷ "dev" ∷ "pf0vf0" ∷ "ingress" ∷ [])
      ∷ ("qdisc" ∷ "add" ∷ "dev" ∷ "pf0vf0" ∷ "ingress" ∷ [])
      ∷ [],
)
unfolding ensure_ingress_qdisc occurs_in
ensured = refl

in_hardware : (check_in_hw (recorder third_refused) "pf0vf0" "0x1" 7 []).0 ≡ ok true
unfolding check_in_hw after_prefix
in_hardware = refl

removed :
    (remove_rule (recorder third_refused) "pf0vf0" "0x1" 7 []).1
    ≡ ("filter" ∷ "del" ∷ "dev" ∷ "pf0vf0" ∷ "ingress" ∷ "prio" ∷ "7" ∷ "handle" ∷ "0x1" ∷ "flower"
        ∷ [])
      ∷ []
unfolding remove_rule str
removed = refl

no_handle : remove_rule (recorder third_refused) "pf0vf0" "" 7 [] ≡ (ok tt, [])
unfolding remove_rule
no_handle = refl

flushed :
    flush_rules (recorder third_refused) "pf0vf0" []
    ≡ (ok tt, ("filter" ∷ "del" ∷ "dev" ∷ "pf0vf0" ∷ "ingress" ∷ []) ∷ [])
unfolding flush_rules
flushed = refl

-- Two filters, the second of which drops.
abbrev listing : Completed
listing = record {
  returncode = 0;
  stdout =
      "\nfilter protocol ip pref 100 flower chain 0\nfilter protocol ip pref 100 flower chain 0 handle 0x1\n  src_ip 10.0.0.1\n  dst_port 80\n  in_hw in_hw_count 1\n action order 1: mirred (Egress Redirect)\n Sent 1234 bytes 10 pkt\nfilter pref 7 flower handle 0x2a\n not_in_hw\n action order 1: gact action drop\n Sent 60 bytes 1 pkt (dropped 1)";
  stderr = "";
}

abbrev lists : List String → Log → Reply × Log
lists args log = (completed listing, args ∷ log)

abbrev blocks_listed : List Block
blocks_listed =
    record {
      header_line = "filter protocol ip pref 100 flower chain 0 handle 0x1";
      header = (100, "0x1");
      details =
          "  src_ip 10.0.0.1" ∷ "  dst_port 80" ∷ "  in_hw in_hw_count 1"
          ∷ " action order 1: mirred (Egress Redirect)" ∷ " Sent 1234 bytes 10 pkt" ∷ [];
    }
    ∷ record {
      header_line = "filter pref 7 flower handle 0x2a";
      header = (7, "0x2a");
      details =
          " not_in_hw" ∷ " action order 1: gact action drop" ∷ " Sent 60 bytes 1 pkt (dropped 1)"
          ∷ [];
    }
    ∷ []

list_rules-blocks_example : list_rules lists "pf0vf0" [] ≡ (
  ok (map block_rule blocks_listed),
  ("filter" ∷ "show" ∷ "dev" ∷ "pf0vf0" ∷ "ingress" ∷ []) ∷ [],
)
unfolding read_header split_lines strip
list_rules-blocks_example =
    list_rules-blocks lists "pf0vf0" []
      (("filter" ∷ "show" ∷ "dev" ∷ "pf0vf0" ∷ "ingress" ∷ []) ∷ []) listing
      ("" ∷ "filter protocol ip pref 100 flower chain 0" ∷ []) blocks_listed refl refl refl refl
      (refl, (refl, tt))
      (
        record { is_header = refl; no_header = (refl, (refl, (refl, (refl, (refl, tt))))) },
        (record { is_header = refl; no_header = (refl, (refl, (refl, tt))) }, tt),
      )

listed :
    map block_rule blocks_listed
    ≡ record {
      handle = "0x1";
      priority = 100;
      protocol = "ip";
      in_hw = true;
      packets = 10;
      bytes = 1234;
      action = "redirect";
      match_src = some "10.0.0.1";
      match_dst = none;
      match_sport = none;
      match_dport = some 80;
    }
      ∷ record {
        handle = "0x2a";
        priority = 7;
        protocol = "ip";
        in_hw = false;
        packets = 1;
        bytes = 60;
        action = "drop";
        match_src = none;
        match_dst = none;
        match_sport = none;
        match_dport = none;
      }
      ∷ []
unfolding read_detail new_rule
listed = refl

totals : (get_stats lists "pf0vf0" []).0 ≡ ok (record { packets = 11; bytes = 1294 })
unfolding get_stats after_prefix
totals = refl
