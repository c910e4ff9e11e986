-- ===== src/Conntrack/Fields.antt =====
-- A search over `key=value` fields: it passes over what holds no equals sign and reads a value up to
-- the space behind it.
use Prim.Native.Char.{code}
use technicolor_haze_prism.Base.{
  ℕ, ◌+◌, ◌*◌, ◌-◌, ◌≡◌, refl, ap, String, Bool, true, false, not, ◌&&◌, Option, none, some,
  text_key, nat_eq, ◌==◌, and_then, is_digit, is_space, word, some_word, some_number, digits_value,
  first_is_digit, search, after_prefix, arith,
}

-- Every character passes the test.
abbrev pub all_chars : (ℕ → Bool) → String → Bool
all_chars p String.[] = true
all_chars p (String.◌∷◌ c text) = p (code c) && all_chars p text

-- One text behind another.
infixr 5 ◌<>◌
abbrev pub ◌<>◌ : String → String → String
String.[] <> rest = rest
(String.◌∷◌ c text) <> rest = String.◌∷◌ c (text <> rest)

abbrev pub not_equals : ℕ → Bool
not_equals c = not (nat_eq c b'=')

abbrev pub not_space : ℕ → Bool
not_space c = not (is_space c)

and-split : (a b : Bool) → (a && b) ≡ true → (a ≡ true) × (b ≡ true)
and-split true b h = (refl, h)
and-split false b h = ground (arith, h)

blank : is_space 32 ≡ true
unfolding is_space
blank = refl

-- A key does not begin inside a text without an equals sign and the space behind it.
after_prefix-apart :
    (key v rest : String)
    → all_chars not_space key ≡ true
    → all_chars not_equals v ≡ true
    → after_prefix (key <> "=") (v <> (" " <> rest)) ≡ none
unfolding after_prefix
after_prefix-apart String.[] String.[] rest k h = refl
after_prefix-apart String.[] (String.◌∷◌ c v) rest k h =
    ground (arith, and-split (not_equals (code c)) (all_chars not_equals v) h)
after_prefix-apart (String.◌∷◌ b key) String.[] rest k h =
    ground (arith, blank, and-split (not_space (code b)) (all_chars not_space key) k)
after_prefix-apart (String.◌∷◌ b key) (String.◌∷◌ c v) rest k h = ground (
  arith,
  after_prefix-apart key v rest (and-split (not_space (code b)) (all_chars not_space key) k).1
      (and-split (not_equals (code c)) (all_chars not_equals v) h).1,
)

word-behind : (v rest : String) → all_chars not_space v ≡ true → word (v <> (" " <> rest)) ≡ v
unfolding word is_space
word-behind String.[] rest h = refl
word-behind (String.◌∷◌ c v) rest h = ground (
  arith,
  and-split (not_space (code c)) (all_chars not_space v) h,
  word-behind v rest (and-split (not_space (code c)) (all_chars not_space v) h).1,
)

digits_value-behind :
    (n : ℕ) (v rest : String)
    → all_chars is_digit v ≡ true
    → (digits_value n (v <> (" " <> rest))).0 ≡ (digits_value n v).0
unfolding digits_value
digits_value-behind n String.[] rest h = refl
digits_value-behind n (String.◌∷◌ c v) rest h =
    rw (digits_value, (and-split (is_digit (code c)) (all_chars is_digit v) h).0)
      (digits_value-behind (n * 10 + (code c - b'0')) v rest
        (and-split (is_digit (code c)) (all_chars is_digit v) h).1)

-- A search for a key passes over a text without an equals sign.
pub search-apart :
    {A : Type 0} (key v rest : String) (f : String → Option A)
    → all_chars not_space key ≡ true
    → all_chars not_equals v ≡ true
    → search (λ t. and_then (after_prefix (key <> "=") t) f) (v <> (" " <> rest))
      ≡ search (λ t. and_then (after_prefix (key <> "=") t) f) rest
unfolding search
search-apart key String.[] rest f k h = rw (search, after_prefix-apart key String.[] rest k h) refl
search-apart key (String.◌∷◌ c v) rest f k h =
    rw (search, after_prefix-apart key (String.◌∷◌ c v) rest k h)
      (search-apart key v rest f k (and-split (not_equals (code c)) (all_chars not_equals v) h).1)

pub some_word-behind :
    (v rest : String)
    → all_chars not_space v ≡ true
    → (v == "") ≡ false
    → some_word (v <> (" " <> rest)) ≡ some v
unfolding some_word
some_word-behind v rest h filled = rw (some_word, word-behind v rest h, filled) refl

-- The number that digits denote.
abbrev pub number_of : String → ℕ
number_of v = (digits_value 0 v).0

pub some_number-behind :
    (v rest : String)
    → all_chars is_digit v ≡ true
    → (v == "") ≡ false
    → and_then (some_number (v <> (" " <> rest))) (λ n. some n.0) ≡ some (number_of v)
unfolding some_number first_is_digit
some_number-behind String.[] rest h filled = ground (arith, filled)
some_number-behind (String.◌∷◌ c v) rest h filled =
    rw (some_number, first_is_digit, (and-split (is_digit (code c)) (all_chars is_digit v) h).0)
      (ap some (digits_value-behind 0 (String.◌∷◌ c v) rest h))
