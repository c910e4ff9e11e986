-- ===== src/Conntrack/Tests.antt =====
-- Witnesses and runs of the connection reader.
use technicolor_haze_prism.Base.{
  ◌≡◌, refl, ◌≤◌, pos, negsuc, String, none, some, List, [], ◌∷◌, ok, err, os_error, All, length,
  split_lines, strip, is_space, is_digit, after_prefix, words,
}
use technicolor_haze_prism.Conntrack.{
  completed, timeout_expired, other_error, Session, int_of, parse_conntrack_line,
  parse_conntrack_output, get_sessions,
}
use technicolor_haze_prism.Conntrack.Original.{
  Direction, IsOriginal, print_line, parse_conntrack_line-IsOriginal,
}
use technicolor_haze_prism.Conntrack.Sessions.{IsSession, parse_conntrack_output-IsSession}

abbrev web : Direction
web = record { src = "10.0.0.1"; dst = "10.0.0.2"; sport = "54321"; dport = "80" }

abbrev reply_direction : String
reply_direction = "src=10.0.0.2 dst=10.0.0.9 sport=80 dport=54321 packets=7 bytes=900"

parse_conntrack_line-IsOriginal_example :
    (s : Session) × (parse_conntrack_line
        (print_line "tcp 6 431999 ESTABLISHED" web reply_direction)
      ≡ some s)
    × IsOriginal web "tcp" s
unfolding is_space is_digit words
parse_conntrack_line-IsOriginal_example =
    parse_conntrack_line-IsOriginal "tcp 6 431999 ESTABLISHED" web reply_direction "tcp" "6"
      "431999" "ESTABLISHED"
      ("src=10.0.0.1" ∷ "dst=10.0.0.2" ∷ "sport=54321" ∷ "dport=80" ∷ "src=10.0.0.2"
        ∷ "dst=10.0.0.9" ∷ "sport=80" ∷ "dport=54321" ∷ "packets=7" ∷ "bytes=900" ∷ [])
      refl
      (record {
        src_value = record { no_space = refl; no_equals = refl; filled = refl };
        dst_value = record { no_space = refl; no_equals = refl; filled = refl };
        sport_value = record { no_space = refl; no_equals = refl; filled = refl };
        sport_digits = refl;
        dport_value = record { no_space = refl; no_equals = refl; filled = refl };
        dport_digits = refl;
      })
      refl

abbrev table : String
table =
    "tcp 6 431999 ESTABLISHED src=10.0.0.1 dst=10.0.0.2 sport=54321 dport=80 packets=10 bytes=1000\nudp 17\n\nicmp 1 x src=10.0.0.3 dst=10.0.0.4\n"

parse_conntrack_output-IsSession_example :
    All IsSession (parse_conntrack_output table)
    × (length (parse_conntrack_output table) ≤ length (split_lines (strip table)))
parse_conntrack_output-IsSession_example = parse_conntrack_output-IsSession table

abbrev sessions_listed : List Session
sessions_listed =
    record {
      protocol = "tcp";
      src_ip = "10.0.0.1";
      dst_ip = "10.0.0.2";
      src_port = some 54321;
      dst_port = some 80;
      state = some "ESTABLISHED";
      packets = 10;
      bytes = 1000;
      timeout = some (pos 431999);
    }
    ∷ record {
      protocol = "icmp";
      src_ip = "10.0.0.3";
      dst_ip = "10.0.0.4";
      src_port = none;
      dst_port = none;
      state = none;
      packets = 0;
      bytes = 0;
      timeout = none;
    }
    ∷ []

listed : get_sessions (λ args n. (completed 0 table, n)) tt ≡ (ok sessions_listed, tt)
unfolding get_sessions is_space is_digit after_prefix
listed = refl

refused : get_sessions (λ args n. (completed 1 table, n)) tt ≡ (ok [], tt)
unfolding get_sessions
refused = refl

late : get_sessions (λ args n. (timeout_expired, n)) tt ≡ (ok [], tt)
unfolding get_sessions
late = refl

raised : get_sessions (λ args n. (other_error, n)) tt ≡ (err os_error, tt)
unfolding get_sessions
raised = refl

negative : int_of "-1_0" ≡ some (negsuc 9)
unfolding int_of is_digit
negative = refl

no_number : int_of "1__0" ≡ none
unfolding int_of is_digit
no_number = refl
