-- ===== src/Base/Text.antt =====
-- Texts: Python's `str` as the native string, its code points, and decimal numerals.
use Prim.Native.Nat.{ℕ, zero, suc, ◌/◌, ◌%◌}
use Prim.Native.Char.{Char, code}
use Prim.Native.String.{String}
use Prim.Native.String
use mathlib.Core.Bool.{Bool, true, false, ◌&&◌, not}
use mathlib.Core.List.{List, [], ◌∷◌}
use mathlib.Core.Option.{Option, none, some}
use pktlab.Base.Tests.{◌==◌, if◌then◌else◌}

-- Concatenation of texts.
infixr 65 ◌<>◌
abbrev pub ◌<>◌ : String → String → String
s <> t = String.◌++◌ s t

-- `not s`
abbrev pub is_empty : String → Bool
is_empty String.[] = true
is_empty (String.◌∷◌ _ _) = false

-- `s or d` on an optional text.
abbrev pub or_text : Option String → String → String
or_text none d = d
or_text (some s) d = if is_empty s then d else s

digit : ℕ → String
digit n =
    if n == 0
    then "0"
    else if n == 1
    then "1"
    else if n == 2
    then "2"
    else if n == 3
    then "3"
    else if n == 4
    then "4"
    else if n == 5
    then "5"
    else if n == 6
    then "6"
    else if n == 7
    then "7"
    else if n == 8
    then "8"
    else "9"

decimal_from : ℕ → ℕ → String
unfolding digit
decimal_from zero n = ""
decimal_from (suc fuel) n =
    let rest = decimal_from fuel (n / 10) in if n / 10 == 0 then digit n else rest <> digit (n % 10)

-- `str(n)`; a number has fewer digits than its value plus one.
unfoldable pub decimal : ℕ → String
unfolding decimal_from
decimal n = decimal_from (suc n) n

-- What the code uses of Python's text methods: `str.isspace` and `str.isdigit` of one code point,
-- the line boundaries of `str.splitlines`, and `int(s)` of a text of digits, `none` where it raises ValueError.
pub record CharTable : Type 0 where
  pub is_space : ℕ → Bool
  pub is_digit : ℕ → Bool
  pub is_line_break : ℕ → Bool
  pub int_of : String → Option ℕ

-- `not s.strip()`
unfoldable pub is_blank : CharTable → String → Bool
is_blank t String.[] = true
is_blank t (String.◌∷◌ c s) = t.is_space (code c) && is_blank t s

lstrip : CharTable → String → String
lstrip t String.[] = ""
lstrip t (String.◌∷◌ c s) =
    let rest = lstrip t s in if t.is_space (code c) then rest else String.◌∷◌ c s

rstrip : CharTable → String → String
rstrip t String.[] = ""
rstrip t (String.◌∷◌ c s) =
    let rest = rstrip t s in if is_empty rest && t.is_space (code c) then "" else String.◌∷◌ c rest

unfoldable pub strip : CharTable → String → String
unfolding lstrip rstrip
strip t s = rstrip t (lstrip t s)

all_digits : CharTable → String → Bool
all_digits t String.[] = true
all_digits t (String.◌∷◌ c s) = t.is_digit (code c) && all_digits t s

-- `s.isdigit()`: the empty text is none.
unfoldable pub isdigit : CharTable → String → Bool
unfolding all_digits
isdigit t s = not (is_empty s) && all_digits t s

abbrev push : Char → List String → List String
push c [] = String.◌∷◌ c "" ∷ []
push c (s ∷ rest) = String.◌∷◌ c s ∷ rest

-- `s.split(sep)` at a separator of one code point.
unfoldable pub split : ℕ → String → List String
split sep String.[] = "" ∷ []
split sep (String.◌∷◌ c s) =
    let rest = split sep s in if code c == sep then "" ∷ rest else push c rest

abbrev prefix_with : Char → Option (String × String) → Option (String × String)
prefix_with c none = none
prefix_with c (some (a, b)) = some (String.◌∷◌ c a, b)

-- The parts before and after the first separator: `s.partition(sep)` and `s.split(sep, 1)`;
-- `none` where there is no separator.
unfoldable pub partition : ℕ → String → Option (String × String)
partition sep String.[] = none
partition sep (String.◌∷◌ c s) =
    let rest = partition sep s in if code c == sep then some ("", s) else prefix_with c rest

-- The pieces between line boundaries; a boundary of two code points gives one more, empty, piece.
unfoldable pub split_lines : CharTable → String → List String
split_lines t String.[] = "" ∷ []
split_lines t (String.◌∷◌ c s) =
    let rest = split_lines t s in if t.is_line_break (code c) then "" ∷ rest else push c rest

take_word : CharTable → String → String
take_word t String.[] = ""
take_word t (String.◌∷◌ c s) =
    let rest = take_word t s in if t.is_space (code c) then "" else String.◌∷◌ c rest

drop_space : CharTable → String → String
drop_space t String.[] = ""
drop_space t (String.◌∷◌ c s) =
    let rest = drop_space t s in if t.is_space (code c) then rest else String.◌∷◌ c s

-- `line.split()[0]`, empty where the line has no word.
unfoldable pub first_word : CharTable → String → String
unfolding take_word drop_space
first_word t s = take_word t (drop_space t s)

-- `s.rstrip(c)` for one code point.
unfoldable pub rstrip_char : ℕ → String → String
rstrip_char sep String.[] = ""
rstrip_char sep (String.◌∷◌ c s) =
    let rest = rstrip_char sep s in
    if is_empty rest && (code c == sep) then "" else String.◌∷◌ c rest

abbrev starts_line : String → Bool
starts_line String.[] = false
starts_line (String.◌∷◌ c _) = code c == 10

-- `s.splitlines()`: a carriage return before a line feed is one boundary with it.
unfoldable pub splitlines : CharTable → String → List String
splitlines t String.[] = []
splitlines t (String.◌∷◌ c s) =
    let rest = splitlines t s in
    if t.is_line_break (code c)
    then (if (code c == 13) && starts_line s then rest else "" ∷ rest)
    else push c rest

-- `sep.join(parts)`
unfoldable pub join : String → List String → String
join sep [] = ""
join sep (s ∷ rest) = elim rest [ [] ↦ s | _ ∷ _ ↦ s <> sep <> join sep rest ]
