-- ===== src/Format/Values.antt =====
-- libs/cov-api/src/cov/format/parser.cc, `cov::parser`: the placeholders with a value, which are the
-- characters, the colors and the widths. A result is the token, if there is one, beside what is left of
-- the text; a failure may have moved on, too.
use git2_cxx.Base.{
  ℕ, ◌+◌, ◌-◌, ◌*◌, ◌^◌, ◌==◌, ◌&&◌, ◌||◌, List, [], ◌∷◌, Option, none, some, Bytes, ltb, leb,
  if◌then◌else◌, codes,
}
use git2_cxx.Text.Parts.{trim}
use git2_cxx.Objects.Props.{natural_from}
use git2_cxx.Format.Tokens.{Color, Width, Common, Token}
use git2_cxx.Format.Colors.{find_color}

abbrev pub Reader : Type 0 → Type 0
Reader A = Bytes → Option A × Bytes

-- A `switch` over the next character: its cases are handed what follows the character.
abbrev pub done : {A : Type 0} → A → Reader A
done a s = (some a, s)

unfoldable pub case_of : {A : Type 0} → List (ℕ × Reader A) → ℕ → Option (Reader A)
case_of [] c = none
case_of ((key, reader) ∷ cases) c = if c == key then some reader else case_of cases c

unfoldable pub switch : {A : Type 0} → List (ℕ × Reader A) → Reader A
unfolding case_of
switch cases [] = (none, [])
switch cases (c ∷ s) = elim (case_of cases c) [ none ↦ (none, c ∷ s) | some reader ↦ reader s ]

abbrev pub plain : Common → Token
plain c = Token.common c

unfoldable pub hex : ℕ → ℕ
hex c =
    if leb b'0' c && leb c b'9'
    then c - b'0'
    else if leb b'A' c && leb c b'F'
    then c - b'A' + 10
    else if leb b'a' c && leb c b'f'
    then c - b'a' + 10
    else 16

unfoldable pub in_32_bits : Option ℕ → Option ℕ
in_32_bits none = none
in_32_bits (some n) = if ltb n (2 ^ 32) then some n else none

unfoldable pub uint_from : Bytes → Option ℕ
unfolding in_32_bits
uint_from s = in_32_bits (natural_from s)

-- The character that two digits stand for: its bits do not overlap.
unfoldable pub low_nybble : ℕ → Reader Token
unfolding hex
low_nybble high [] = (none, [])
low_nybble high (c ∷ s) =
    if ltb 15 (hex c) then (none, c ∷ s) else (some (plain (Common.char (hex c + high * 2 ^ 4))), s)

unfoldable pub parse_hex : Reader Token
unfolding hex low_nybble
parse_hex [] = (none, [])
parse_hex (c ∷ s) = if ltb 15 (hex c) then (none, c ∷ s) else low_nybble (hex c) s

-- What stands in front of the first `stop`, and the rest from there.
unfoldable pub until : ℕ → Bytes → Bytes × Bytes
until stop [] = ([], [])
until stop (c ∷ s) =
    let (before, rest) = until stop s in if c == stop then ([], c ∷ s) else (c ∷ before, rest)

unfoldable pub is_it : Bytes → Color → Reader Token
is_it [] response s = (some (plain (Common.color response)), s)
is_it (n ∷ name) response [] = (none, [])
is_it (n ∷ name) response (c ∷ s) = if c == n then is_it name response s else (none, c ∷ s)

unfoldable pub color_token : Option Color → Option Token
color_token none = none
color_token (some c) = some (plain (Common.color c))

unfoldable pub closed_color : Bytes × Bytes → Option Token × Bytes
unfolding color_token
closed_color (name, []) = (none, [])
closed_color (name, c ∷ rest) = (color_token (find_color name), rest)

unfoldable pub named_color : Reader Token
unfolding until closed_color
named_color s = closed_color (until b')' s)

-- Behind "re".
unfoldable pub red_or_reset : Reader Token
unfolding is_it
red_or_reset [] = (none, [])
red_or_reset (c ∷ s) =
    if c == b'd'
    then (some (plain (Common.color Color.red)), s)
    else is_it (codes "set") Color.reset (c ∷ s)

unfoldable pub behind_r : Reader Token
unfolding red_or_reset
behind_r [] = (none, [])
behind_r (c ∷ s) = if c == b'e' then red_or_reset s else (none, c ∷ s)

unfoldable pub parse_color : Reader Token
unfolding named_color is_it behind_r
parse_color [] = (none, [])
parse_color (c ∷ s) =
    if c == b'('
    then named_color s
    else if c == b'g'
    then is_it (codes "green") Color.green (c ∷ s)
    else if c == b'b'
    then is_it (codes "blue") Color.blue (c ∷ s)
    else if c == b'r'
    then behind_r s
    else (none, c ∷ s)

-- What stands in front of the first comma, and behind it, if there is one.
unfoldable pub behind_comma : Bytes × Bytes → Bytes × Option Bytes
behind_comma (before, []) = (before, none)
behind_comma (before, c ∷ rest) = (before, some rest)

unfoldable pub to_comma : Bytes → Bytes × Option Bytes
unfolding until behind_comma
to_comma args = behind_comma (until b',' args)

abbrev pub argument : Bytes → Option ℕ
argument s = uint_from (trim s)

-- The third argument, and the check that follows it.
unfoldable pub checked : ℕ → ℕ → Option ℕ → Option Width
checked total indent1 none = none
checked total indent1 (some indent2) =
    if leb total indent1 || leb total indent2
    then none
    else some (record { total = total; indent1 = indent1; indent2 = indent2 })

unfoldable pub third_width : ℕ → ℕ → Bytes × Option Bytes → Option Width
unfolding checked
third_width total indent1 (args, some rest) = none
third_width total indent1 (args, none) = checked total indent1 (argument args)

-- The second argument, and what stands behind its comma.
unfoldable pub second_width : ℕ → Option ℕ → Option Bytes → Option Width
unfolding to_comma third_width
second_width total none more = none
second_width total (some indent1) none =
    some (record { total = total; indent1 = indent1; indent2 = indent1 })
second_width total (some indent1) (some rest) = third_width total indent1 (to_comma rest)

unfoldable pub second_part : ℕ → Bytes × Option Bytes → Option Width
unfolding second_width
second_part total (before, more) = second_width total (argument before) more

-- The first argument, and what stands behind its comma.
unfoldable pub first_width : Option ℕ → Option Bytes → Option Width
unfolding to_comma second_part
first_width none more = none
first_width (some total) none = some (record { total = total; indent1 = 6; indent2 = 9 })
first_width (some total) (some rest) = second_part total (to_comma rest)

unfoldable pub first_part : Bytes × Option Bytes → Option Width
unfolding first_width
first_part (before, more) = first_width (argument before) more

unfoldable pub width_of : Bytes → Option Width
unfolding to_comma first_part
width_of [] = some (record { total = 76; indent1 = 6; indent2 = 9 })
width_of (c ∷ s) = first_part (to_comma (c ∷ s))

unfoldable pub width_token : Option Width → Option Token
width_token none = none
width_token (some w) = some (plain (Common.width w))

unfoldable pub closed_width : Bytes × Bytes → Option Token × Bytes
unfolding width_of width_token
closed_width (args, []) = (none, [])
closed_width (args, c ∷ rest) = (width_token (width_of (trim args)), rest)

unfoldable pub bracketed_width : Reader Token
unfolding until closed_width
bracketed_width s = closed_width (until b')' s)

unfoldable pub parse_width : Reader Token
unfolding bracketed_width
parse_width [] = (none, [])
parse_width (c ∷ s) = if c == b'(' then bracketed_width s else (none, c ∷ s)
