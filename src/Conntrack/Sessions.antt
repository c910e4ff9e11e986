-- ===== src/Conntrack/Sessions.antt =====
-- What every session of conntrack.py has, whatever the command printed.
use Prim.Native.Char.{Char, code}
use technicolor_haze_prism.Base.{
  ℕ, suc, ◌≤◌, ◌≡◌, refl, sym, ap, ◌∙◌, subst, String, Bool, true, false, ◌||◌, Option, none, some,
  List, [], ◌∷◌, text_key, if◌then◌else◌, ◌==◌, and_then, or_else, is_space, Option-cases,
  same_refl, words, word, some_word, search, value_word, after_prefix, arith, Bool-cases, inl, inr,
  All, length, split_lines, strip, occurs_in,
}
use technicolor_haze_prism.Conntrack.{
  Session, parse_conntrack_line, parse_words, session_of, find_state, tcp_states, parse_each, onto,
  parse_conntrack_output,
}
use technicolor_haze_prism.Conntrack.Fields.{all_chars, not_space}

-- An address: some text without white space.
pub record IsAddress (v : String) : Type 0 where
  pub filled : (v == "") ≡ false
  pub no_space : all_chars not_space v ≡ true

abbrev pub one_of : List String → String → Bool
one_of [] v = false
one_of (s ∷ states) v = v == s || one_of states v

abbrev pub known_in : List String → Option String → Bool
known_in states none = true
known_in states (some v) = one_of states v

pub record IsSession (s : Session) : Type 0 where
  pub source : IsAddress s.src_ip
  pub destination : IsAddress s.dst_ip
  pub known_state : known_in tcp_states s.state ≡ true

some_injective : {v w : String} → some v ≡ some w → v ≡ w
some_injective {v} e = ap (λ o. or_else o v) e

word-no_space : (text : String) → all_chars not_space (word text) ≡ true
unfolding word
word-no_space String.[] = refl
word-no_space (String.◌∷◌ c text) = go (is_space (code c)) refl (word-no_space text)
  where
    go :
        (b : Bool)
        → is_space (code c) ≡ b
        → all_chars not_space (word text) ≡ true
        → all_chars not_space (if b then String.[] else String.◌∷◌ c (word text)) ≡ true
    go true e rest = refl
    go false e rest = ground (arith, e, rest)

some_word-IsAddress : (text v : String) → some_word text ≡ some v → IsAddress v
unfolding some_word
some_word-IsAddress text v e = elim (Bool-cases (word text == "")) [
  | inl empty ↦ ground (arith, e, empty)
  | inr filled ↦
      subst IsAddress (some_injective (sym (rw (some_word, filled) refl) ∙ e))
        (record { filled = filled; no_space = word-no_space text })
]

search-next :
    {A : Type 0} (match_at : String → Option A) (c : Char) (text : String)
    → match_at (String.◌∷◌ c text) ≡ none
    → search match_at (String.◌∷◌ c text) ≡ search match_at text
unfolding search
search-next match_at c text h = rw (search, h) refl

search-here :
    {A : Type 0} (match_at : String → Option A) (c : Char) (text : String) (group : A)
    → match_at (String.◌∷◌ c text) ≡ some group
    → search match_at (String.◌∷◌ c text) ≡ some group
unfolding search
search-here match_at c text group h = rw (search, h) refl

search-found :
    {A : Type 0} (match_at : String → Option A) (text : String) (group : A)
    → search match_at text ≡ some group
    → (t : String) × (match_at t ≡ some group)
unfolding search
search-found match_at String.[] group e = (String.[], e)
search-found match_at (String.◌∷◌ c text) group e =
    elim (Option-cases (match_at (String.◌∷◌ c text))) [
      | inl nothing ↦
          search-found match_at text group (sym (search-next match_at c text nothing) ∙ e)
      | inr found ↦
          (String.◌∷◌ c text, found.1 ∙ sym (search-here match_at c text found.0 found.1) ∙ e)
    ]

value_word-IsAddress : (key text v : String) → search (value_word key) text ≡ some v → IsAddress v
unfolding value_word
value_word-IsAddress key text v e = go (after_prefix key found.0) found.1
  where
    found : (t : String) × (value_word key t ≡ some v)
    found = search-found (value_word key) text v e

    go : (behind : Option String) → and_then behind some_word ≡ some v → IsAddress v
    go none h = ground (arith, h)
    go (some u) h = some_word-IsAddress u v h

find_state-known :
    (states : List String) (line : String) → known_in states (find_state states line) ≡ true
unfolding find_state
find_state-known [] line = refl
find_state-known (s ∷ states) line = elim (Bool-cases (occurs_in s line)) [
  | inl here ↦ rw (find_state, here) (rw (same_refl s) refl)
  | inr absent ↦
      rw (find_state, absent) (later (find_state states line) (find_state-known states line))
]
  where
    later :
        (found : Option String) → known_in states found ≡ true → known_in (s ∷ states) found ≡ true
    later none h = refl
    later (some v) h = ground (arith, h)

IsSessionOrNone : Option Session → Type 0
IsSessionOrNone none = Unit
IsSessionOrNone (some s) = IsSession s

parse_words-IsSession :
    (line : String) (parts : List String) → IsSessionOrNone (parse_words line parts)
unfolding parse_words session_of IsSessionOrNone
parse_words-IsSession line [] = tt
parse_words-IsSession line (a ∷ []) = tt
parse_words-IsSession line (a ∷ b ∷ []) = tt
parse_words-IsSession line (a ∷ b ∷ c ∷ []) = tt
parse_words-IsSession line (protocol ∷ b ∷ third ∷ d ∷ rest) =
    go (search (value_word "src=") line) (search (value_word "dst=") line) refl refl
  where
    go :
        (src dst : Option String)
        → search (value_word "src=") line ≡ src
        → search (value_word "dst=") line ≡ dst
        → IsSessionOrNone
            (and_then src (λ s. and_then dst (λ t. some (session_of line protocol third s t))))
    go none dst e f = tt
    go (some s) none e f = tt
    go (some s) (some t) e f = record {
      source = value_word-IsAddress "src=" line s e;
      destination = value_word-IsAddress "dst=" line t f;
      known_state = find_state-known tcp_states line;
    }

onto-IsSession :
    (o : Option Session) (sessions : List Session) (n : ℕ)
    → IsSessionOrNone o
    → All IsSession sessions × (length sessions ≤ n)
    → All IsSession (onto o sessions) × (length (onto o sessions) ≤ suc n)
unfolding onto IsSessionOrNone
onto-IsSession none sessions n h rest = (rest.0, omega (arith, rest.1))
onto-IsSession (some s) sessions n h rest = ((h, rest.0), omega (arith, rest.1))

parse_each-IsSession :
    (lines : List String)
    → All IsSession (parse_each lines) × (length (parse_each lines) ≤ length lines)
unfolding parse_each parse_conntrack_line
parse_each-IsSession [] = (tt, omega arith)
parse_each-IsSession (line ∷ lines) =
    let rest = parse_each-IsSession lines in
    elim (Bool-cases (strip line == "")) [
      | inl blank ↦ rw (parse_each, blank) (rest.0, omega (arith, rest.1))
      | inr filled ↦
          rw (parse_each, filled)
            (onto-IsSession (parse_conntrack_line line) (parse_each lines) (length lines)
              (parse_words-IsSession line (words line)) rest)
    ]

-- Every session that is read from whatever output has a source and a destination that are not
-- empty and hold no white space, and one of the known states or none; there are no more sessions
-- than lines.
pub parse_conntrack_output-IsSession :
    (output : String)
    → All IsSession (parse_conntrack_output output)
      × (length (parse_conntrack_output output) ≤ length (split_lines (strip output)))
unfolding parse_conntrack_output
parse_conntrack_output-IsSession output = parse_each-IsSession (split_lines (strip output))
