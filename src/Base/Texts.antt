-- ===== src/Base/Texts.antt =====
-- What the program does with texts: joins them, prints numbers into them, searches them.
use Prim.Native.Nat.{ℕ, zero, suc, ◌%◌, ◌/◌}
use Prim.Native.Char.{code}
use Prim.Native.String.{String, ◌++◌}
use mathlib.Core.Bool.{Bool, true, false}
use mathlib.Core.List.{List, [], ◌∷◌}
use mathlib.Core.Option.{Option, none, some}
use technicolor_haze_prism.Base.Tests.{if◌then◌else◌, ltb, nat_eq, is_some}
use technicolor_haze_prism.Base.Keys.{text_key, ◌==◌}

digit : ℕ → String
digit d =
    if nat_eq d 0
    then "0"
    else if nat_eq d 1
    then "1"
    else if nat_eq d 2
    then "2"
    else if nat_eq d 3
    then "3"
    else if nat_eq d 4
    then "4"
    else if nat_eq d 5
    then "5"
    else if nat_eq d 6
    then "6"
    else if nat_eq d 7
    then "7"
    else if nat_eq d 8
    then "8"
    else "9"

-- The fuel is one more than the number, which has no more digits than that.
digits_from : ℕ → ℕ → String → String
unfolding digit
digits_from zero n behind = behind
digits_from (suc fuel) n behind =
    let shown = digit (n % 10) ++ behind in
    let rest = digits_from fuel (n / 10) shown in if ltb n 10 then shown else rest

-- `str(n)` of a number that is not negative.
unfoldable pub str : ℕ → String
unfolding digits_from
str n = digits_from (suc n) n String.[]

-- An optional text or number in `x or ''`, where None, an empty text and 0 all give ''.
unfoldable pub text_or_empty : Option String → String
text_or_empty none = String.[]
text_or_empty (some s) = s

unfoldable pub number_or_empty : Option ℕ → String
unfolding str
number_or_empty none = String.[]
number_or_empty (some n) = if nat_eq n 0 then String.[] else str n

-- The truth value of an optional text or number.
abbrev pub text_given : Option String → Bool
text_given none = false
text_given (some s) = if s == "" then false else true

abbrev pub number_given : Option ℕ → Bool
number_given none = false
number_given (some n) = ltb 0 n

-- The fields of a signature, joined by bars.
unfoldable pub join_bars : List String → String
join_bars [] = String.[]
join_bars (s ∷ []) = s
join_bars (s ∷ t ∷ rest) = s ++ ("|" ++ join_bars (t ∷ rest))

-- The text behind a prefix.
unfoldable pub after_prefix : String → String → Option String
after_prefix String.[] text = some text
after_prefix (String.◌∷◌ c p) String.[] = none
after_prefix (String.◌∷◌ c p) (String.◌∷◌ d text) =
    let rest = after_prefix p text in if nat_eq (code c) (code d) then rest else none

-- `part in text`
unfoldable pub occurs_in : String → String → Bool
unfolding after_prefix
occurs_in part String.[] = is_some (after_prefix part String.[])
occurs_in part (String.◌∷◌ c text) =
    let rest = occurs_in part text in
    if is_some (after_prefix part (String.◌∷◌ c text)) then true else rest
