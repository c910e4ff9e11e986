-- ===== src/Conntrack/Original.antt =====
-- Which addresses a session gets: a line of conntrack names both directions of a connection.
use technicolor_haze_prism.Base.{
  ℕ, ◌≡◌, refl, ap, ◌∙◌, String, true, false, Option, some, List, ◌∷◌, text_key, ◌==◌, and_then,
  is_digit, is_space, words, some_word, some_number, search, value_word, value_number, after_prefix,
}
use technicolor_haze_prism.Conntrack.Fields.{
  ◌<>◌, all_chars, not_space, not_equals, search-apart, some_word-behind, some_number-behind,
  number_of,
}
use technicolor_haze_prism.Conntrack.{Session, parse_conntrack_line, parse_words, session_of}

-- The addresses and ports of one direction, as conntrack prints them.
pub record Direction : Type 0 where
  pub src : String
  pub dst : String
  pub sport : String
  pub dport : String

-- A field's value: neither empty nor with a space or an equals sign.
pub record IsValue (v : String) : Type 0 where
  pub no_space : all_chars not_space v ≡ true
  pub no_equals : all_chars not_equals v ≡ true
  pub filled : (v == "") ≡ false

pub record IsDirection (d : Direction) : Type 0 where
  pub src_value : IsValue d.src
  pub dst_value : IsValue d.dst
  pub sport_value : IsValue d.sport
  pub sport_digits : all_chars is_digit d.sport ≡ true
  pub dport_value : IsValue d.dport
  pub dport_digits : all_chars is_digit d.dport ≡ true

abbrev first_number : String → Option ℕ
first_number text = and_then (some_number text) (λ n. some n.0)

-- The parts of the text, from the last on.
module _ (d : Direction) (tail : String) where
  abbrev from_dport : String
  from_dport = "dport=" <> d.dport <> " " <> tail

  abbrev from_sport : String
  from_sport = "sport=" <> d.sport <> " " <> from_dport

  abbrev from_dst : String
  from_dst = "dst=" <> d.dst <> " " <> from_sport

  abbrev from_src : String
  from_src = "src=" <> d.src <> " " <> from_dst

-- A line: what stands in front of the addresses, the original direction, and the rest, which
-- may name the reply direction too.
abbrev pub print_line : String → Direction → String → String
print_line head d tail = head <> " " <> from_src d tail

module _ (head : String) (d : Direction) (tail : String) (h : all_chars not_equals head ≡ true)
    (valid : IsDirection d) where
  find_src : search (value_word "src=") (print_line head d tail) ≡ some d.src
  unfolding search value_word after_prefix
  find_src =
      search-apart "src" head (from_src d tail) some_word refl h
      ∙ rw
          (
            search,
            some_word-behind d.src (from_dst d tail) valid.src_value.no_space
                valid.src_value.filled,
          )
          refl

  find_dst : search (value_word "dst=") (print_line head d tail) ≡ some d.dst
  unfolding search value_word after_prefix
  find_dst =
      search-apart "dst" head (from_src d tail) some_word refl h
      ∙ search-apart "dst" d.src (from_dst d tail) some_word refl valid.src_value.no_equals
      ∙ rw
          (
            search,
            some_word-behind d.dst (from_sport d tail) valid.dst_value.no_space
                valid.dst_value.filled,
          )
          refl

  find_sport : search (value_number "sport=") (print_line head d tail) ≡ some (number_of d.sport)
  unfolding search value_number after_prefix is_space
  find_sport =
      search-apart "sport" head (from_src d tail) first_number refl h
      ∙ search-apart "sport" d.src (from_dst d tail) first_number refl valid.src_value.no_equals
      ∙ search-apart "sport" d.dst (from_sport d tail) first_number refl valid.dst_value.no_equals
      ∙ rw
          (
            search,
            some_number-behind d.sport (from_dport d tail) valid.sport_digits
                valid.sport_value.filled,
          )
          refl

  find_dport : search (value_number "dport=") (print_line head d tail) ≡ some (number_of d.dport)
  unfolding search value_number after_prefix is_space
  find_dport =
      search-apart "dport" head (from_src d tail) first_number refl h
      ∙ search-apart "dport" d.src (from_dst d tail) first_number refl valid.src_value.no_equals
      ∙ search-apart "dport" d.dst (from_sport d tail) first_number refl valid.dst_value.no_equals
      ∙ search-apart "dport" d.sport (from_dport d tail) first_number refl
          valid.sport_value.no_equals
      ∙ rw (search, some_number-behind d.dport tail valid.dport_digits valid.dport_value.filled)
          refl

-- The session of a line: the addresses and ports of the original direction.
pub record IsOriginal (d : Direction) (protocol : String) (s : Session) : Type 0 where
  pub named : s.protocol ≡ protocol
  pub source : s.src_ip ≡ d.src
  pub destination : s.dst_ip ≡ d.dst
  pub source_port : s.src_port ≡ some (number_of d.sport)
  pub destination_port : s.dst_port ≡ some (number_of d.dport)

-- A line of four words or more that names a direction of non-empty fields, ports in digits, with
-- no equals sign before it, is read as a session of the line's first word with the addresses and
-- ports of that direction, whatever addresses the rest of the line names.
pub parse_conntrack_line-IsOriginal :
    (head : String) (d : Direction) (tail : String) (protocol second third fourth : String)
    (rest : List String)
    → all_chars not_equals head ≡ true
    → IsDirection d
    → words (print_line head d tail) ≡ protocol ∷ second ∷ third ∷ fourth ∷ rest
    → (s : Session) × (parse_conntrack_line (print_line head d tail) ≡ some s)
      × IsOriginal d protocol s
unfolding parse_conntrack_line parse_words session_of
parse_conntrack_line-IsOriginal head d tail protocol second third fourth rest h valid shape = (
  session_of (print_line head d tail) protocol third d.src d.dst,
  ap (parse_words (print_line head d tail)) shape
      ∙ rw (parse_words, find_src head d tail h valid, find_dst head d tail h valid) refl,
  record {
    named = refl;
    source = refl;
    destination = refl;
    source_port = find_sport head d tail h valid;
    destination_port = find_dport head d tail h valid;
  },
)
