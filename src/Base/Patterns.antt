-- ===== src/Base/Patterns.antt =====
-- Regular expressions as the program uses them: `re.search` for a keyword and a group behind it. White
-- space is that of Unicode; digits and letters are those of ASCII, which the read commands print.
use Prim.Native.Nat.{ℕ, ◌+◌, ◌*◌, ◌-◌}
use Prim.Native.Char.{code}
use Prim.Native.String.{String, ◌++◌}
use mathlib.Core.Bool.{Bool, true, false, ◌&&◌, ◌||◌}
use mathlib.Core.List.{List, [], ◌∷◌}
use mathlib.Core.Option.{Option, none, some}
use technicolor_haze_prism.Base.Tests.{if◌then◌else◌, leb, nat_eq}
use technicolor_haze_prism.Base.Keys.{text_key, ◌==◌}
use technicolor_haze_prism.Base.Texts.{after_prefix}

-- The white space that `\s` matches, and that `split` and `strip` take for it.
unfoldable pub is_space : ℕ → Bool
is_space c =
    nat_eq c 32
    || (leb 9 c && leb c 13)
    || (leb 28 c && leb c 31)
    || nat_eq c 133
    || nat_eq c 160
    || nat_eq c 5760
    || (leb 8192 c && leb c 8202)
    || nat_eq c 8232
    || nat_eq c 8233
    || nat_eq c 8239
    || nat_eq c 8287
    || nat_eq c 12288

unfoldable pub is_digit : ℕ → Bool
is_digit c = leb b'0' c && leb c b'9'

unfoldable pub skip_spaces : String → String
unfolding is_space
skip_spaces String.[] = String.[]
skip_spaces (String.◌∷◌ c text) =
    let rest = skip_spaces text in if is_space (code c) then rest else String.◌∷◌ c text

unfoldable pub strip_end : String → String
unfolding is_space
strip_end String.[] = String.[]
strip_end (String.◌∷◌ c text) =
    let rest = strip_end text in
    if is_space (code c) && rest == "" then String.[] else String.◌∷◌ c rest

-- `strip()`
unfoldable pub strip : String → String
unfolding skip_spaces strip_end
strip text = skip_spaces (strip_end text)

unfoldable pub first_is_space : String → Bool
unfolding is_space
first_is_space String.[] = false
first_is_space (String.◌∷◌ c text) = is_space (code c)

unfoldable pub first_is_digit : String → Bool
unfolding is_digit
first_is_digit String.[] = false
first_is_digit (String.◌∷◌ c text) = is_digit (code c)

-- The value of an option, given to a further match.
abbrev pub and_then : {A B : Type 0} → Option A → (A → Option B) → Option B
and_then none f = none
and_then (some a) f = f a

-- `\s+`: the text behind it.
unfoldable pub spaces : String → Option String
unfolding first_is_space skip_spaces
spaces text = if first_is_space text then some (skip_spaces text) else none

-- `\S*`: the text up to the next white space.
unfoldable pub word : String → String
unfolding is_space
word String.[] = String.[]
word (String.◌∷◌ c text) =
    let rest = word text in if is_space (code c) then String.[] else String.◌∷◌ c rest

-- `(\S+)`
unfoldable pub some_word : String → Option String
unfolding word
some_word text = if word text == "" then none else some (word text)

-- `int` of the digits at the head of the text, behind those read, and the text behind them.
unfoldable pub digits_value : ℕ → String → ℕ × String
unfolding is_digit
digits_value read String.[] = (read, String.[])
digits_value read (String.◌∷◌ c text) = elim (is_digit (code c)) [
  | true ↦ digits_value (read * 10 + (code c - b'0')) text
  | false ↦ (read, String.◌∷◌ c text)
]

-- `(\d+)`: the number and the text behind it.
unfoldable pub some_number : String → Option (ℕ × String)
unfolding first_is_digit digits_value
some_number text = if first_is_digit text then some (digits_value 0 text) else none

-- `key\s+(\S+)` and `key\s+(\d+)` at the head of the text: the group.
unfoldable pub key_word : String → String → Option String
unfolding spaces some_word
key_word key text = and_then (after_prefix key text) (λ t. and_then (spaces t) some_word)

unfoldable pub key_number : String → String → Option ℕ
unfolding spaces some_number
key_number key text =
    and_then (after_prefix key text)
      (λ t. and_then (spaces t) (λ u. and_then (some_number u) (λ n. some n.0)))

-- `key(\S+)` and `key(\d+)`
unfoldable pub value_word : String → String → Option String
unfolding some_word
value_word key text = and_then (after_prefix key text) some_word

unfoldable pub value_number : String → String → Option ℕ
unfolding some_number
value_number key text =
    and_then (after_prefix key text) (λ t. and_then (some_number t) (λ n. some n.0))

-- `re.search`: the group of the first match.
unfoldable pub search : {A : Type 0} → (String → Option A) → String → Option A
search match_at String.[] = match_at String.[]
search match_at (String.◌∷◌ c text) = elim (match_at (String.◌∷◌ c text)) [
  | some group ↦ some group
  | none ↦ search match_at text
]

-- `re.finditer`, for a pattern none of whose matches can begin inside another.
unfoldable pub find_all : {A : Type 0} → (String → Option A) → String → List A
find_all match_at String.[] = elim (match_at String.[]) [ some group ↦ group ∷ [] | none ↦ [] ]
find_all match_at (String.◌∷◌ c text) = elim (match_at (String.◌∷◌ c text)) [
  | some group ↦ group ∷ find_all match_at text
  | none ↦ find_all match_at text
]

-- The first of a text that is read, in front of the first of the lines that follow.
unfoldable pub onto_first : String → List String → List String
onto_first c [] = c ∷ []
onto_first c (line ∷ lines) = (c ++ line) ∷ lines

-- `split("\n")`
unfoldable pub split_lines : String → List String
unfolding onto_first
split_lines String.[] = String.[] ∷ []
split_lines (String.◌∷◌ c text) =
    let rest = split_lines text in
    if nat_eq (code c) 10 then String.[] ∷ rest else onto_first (String.◌∷◌ c String.[]) rest

-- `split()`: the words, where `inside` tells that the character before is part of one.
unfoldable pub words_from : Bool → String → List String
unfolding is_space onto_first
words_from inside String.[] = if inside then String.[] ∷ [] else []
words_from inside (String.◌∷◌ c text) = elim (is_space (code c)) [
  | true ↦ if inside then String.[] ∷ words_from false text else words_from false text
  | false ↦ onto_first (String.◌∷◌ c String.[]) (words_from true text)
]

unfoldable pub words : String → List String
unfolding words_from
words text = words_from false text

-- The code of the lower case letter.
unfoldable pub lower : ℕ → ℕ
lower c = if leb b'A' c && leb c b'Z' then c + 32 else c

-- `part` at the head of `text.lower()`, for a part that is in lower case.
unfoldable pub begins_lower : String → String → Bool
unfolding lower
begins_lower String.[] text = true
begins_lower (String.◌∷◌ c p) String.[] = false
begins_lower (String.◌∷◌ c p) (String.◌∷◌ d text) =
    let rest = begins_lower p text in nat_eq (code c) (lower (code d)) && rest

-- `part in text.lower()`
unfoldable pub occurs_in_lower : String → String → Bool
unfolding begins_lower
occurs_in_lower part String.[] = begins_lower part String.[]
occurs_in_lower part (String.◌∷◌ c text) =
    let rest = occurs_in_lower part text in begins_lower part (String.◌∷◌ c text) || rest
