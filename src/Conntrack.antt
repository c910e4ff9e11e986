-- ===== src/Conntrack.antt =====
-- tc-firewall/src/conntrack.py: the connections that the command `conntrack` lists, read from its
-- output. The command is a parameter. Numbers are in ASCII digits, and `int` has no limit on them.
pub mod Fields
pub mod Original
pub mod Sessions
mod Tests
use Prim.Native.Char.{code}
use technicolor_haze_prism.Base.{
  ℕ, zero, suc, ◌+◌, ◌*◌, ◌-◌, ℤ, pos, negsuc, String, Bool, true, false, ◌&&◌, Option, none, some,
  List, [], ◌∷◌, text_key, nat_eq, leb, if◌then◌else◌, ◌==◌, Action, Result, ok, err, os_error,
  or_else, and_then, is_digit, strip, split_lines, words, search, value_word, value_number,
  occurs_in,
}

-- `Session` of models.py. A timeout is what `int` reads, which may be negative.
pub record Session : Type 0 where
  pub protocol : String
  pub src_ip : String
  pub dst_ip : String
  pub src_port : Option ℕ
  pub dst_port : Option ℕ
  pub state : Option String
  pub packets : ℕ
  pub bytes : ℕ
  pub timeout : Option ℤ

-- How `subprocess.run` ends: with the process's return code and output, or by raising.
pub data Reply : Type 0 where
  completed : ℕ → String → Reply
  file_not_found timeout_expired other_error : Reply

abbrev minus : ℕ → ℤ
minus zero = pos zero
minus (suc n) = negsuc n

-- The digits of `int(text)` behind those read, with single underscores between digits; `ready` tells
-- that the character before is a digit.
int_digits : Bool → ℕ → String → Option ℕ
unfolding is_digit
int_digits ready read String.[] = if ready then some read else none
int_digits ready read (String.◌∷◌ c text) = elim (is_digit (code c)) [
  | true ↦ int_digits true (read * 10 + (code c - b'0')) text
  | false ↦ elim (nat_eq (code c) b'_' && ready) [
    | true ↦ int_digits false read text
    | false ↦ none
  ]
]

-- `int(text)` of a text without white space; none for ValueError.
int_of : String → Option ℤ
unfolding int_digits
int_of String.[] = none
int_of (String.◌∷◌ c text) =
    if nat_eq (code c) b'-'
    then and_then (int_digits false 0 text) (λ n. some (minus n))
    else if nat_eq (code c) b'+'
    then and_then (int_digits false 0 text) (λ n. some (pos n))
    else and_then (int_digits false 0 (String.◌∷◌ c text)) (λ n. some (pos n))

abbrev pub tcp_states : List String
tcp_states =
    "ESTABLISHED" ∷ "SYN_SENT" ∷ "SYN_RECV" ∷ "FIN_WAIT" ∷ "CLOSE_WAIT" ∷ "LAST_ACK" ∷ "TIME_WAIT"
    ∷ "CLOSE" ∷ []

-- The first of the states that stands in the line.
unfoldable pub find_state : List String → String → Option String
unfolding occurs_in
find_state [] line = none
find_state (s ∷ states) line = if occurs_in s line then some s else find_state states line

-- The session of a line with these words, from the third on.
session_of : String → String → String → String → String → Session
unfolding search value_word value_number find_state int_of
session_of line protocol third src dst = record {
  protocol = protocol;
  src_ip = src;
  dst_ip = dst;
  src_port = search (value_number "sport=") line;
  dst_port = search (value_number "dport=") line;
  state = find_state tcp_states line;
  packets = or_else (search (value_number "packets=") line) 0;
  bytes = or_else (search (value_number "bytes=") line) 0;
  timeout = int_of third;
}

-- The line with its words.
parse_words : String → List String → Option Session
unfolding session_of
parse_words line [] = none
parse_words line (a ∷ []) = none
parse_words line (a ∷ b ∷ []) = none
parse_words line (a ∷ b ∷ c ∷ []) = none
parse_words line (protocol ∷ b ∷ third ∷ d ∷ rest) =
    and_then (search (value_word "src=") line) (λ src.
      and_then (search (value_word "dst=") line)
        (λ dst. some (session_of line protocol third src dst)))

unfoldable pub parse_conntrack_line : String → Option Session
unfolding words parse_words
parse_conntrack_line line = parse_words line (words line)

onto : Option Session → List Session → List Session
onto none sessions = sessions
onto (some session) sessions = session ∷ sessions

parse_each : List String → List Session
unfolding parse_conntrack_line onto strip
parse_each [] = []
parse_each (line ∷ lines) =
    let rest = parse_each lines in
    if strip line == "" then rest else onto (parse_conntrack_line line) rest

unfoldable pub parse_conntrack_output : String → List Session
unfolding parse_each split_lines strip
parse_conntrack_output output = parse_each (split_lines (strip output))

-- `get_sessions` on what `subprocess.run` does: only two of its exceptions are caught.
sessions_of : Reply → Result (List Session)
unfolding parse_conntrack_output
sessions_of (completed returncode stdout) =
    if nat_eq returncode 0 then ok (parse_conntrack_output stdout) else ok []
sessions_of file_not_found = ok []
sessions_of timeout_expired = ok []
sessions_of other_error = err os_error

unfoldable pub get_sessions : {W : Type 0} → (List String → W → Reply × W) → Action W (List Session)
unfolding sessions_of
get_sessions run w =
    let (reply, v) = run ("conntrack" ∷ "-L" ∷ "-o" ∷ "extended" ∷ []) w in (sessions_of reply, v)
