-- ===== src/References/Names.antt =====
-- libs/cov-api/src/cov/ref/reference.cc: the names of references.
use git2_cxx.Base.{
  ℕ, ◌==◌, Bool, true, false, not, ◌&&◌, ◌||◌, [], ◌∷◌, ◌++◌, Option, none, some, Bytes, ltb, leb,
  if◌then◌else◌, codes,
}
use git2_cxx.Text.Parts.{ends_with}

-- The check of a component. `front` of an empty one is undefined.
unfoldable pub check_chunk : Bytes → Option Bool
unfolding ends_with
check_chunk [] = none
check_chunk (c ∷ chunk) = some (not (c == 46 || ends_with (c ∷ chunk) (codes ".lock")))

-- The characters that no name has.
unfoldable pub is_refused : ℕ → Bool
is_refused c =
    ltb c 32
    || c == 127
    || c == 42
    || c == 58
    || c == 63
    || c == 91
    || c == 34
    || c == 94
    || c == 126
    || c == 32

unfoldable pub is_upper_case : Bytes → Bool
is_upper_case [] = true
is_upper_case (c ∷ s) = (c == 95 || (leb 65 c && leb c 90)) && is_upper_case s

unfoldable pub and_then_check : Option Bool → Option Bool → Option Bool
and_then_check none rest = none
and_then_check (some false) rest = some false
and_then_check (some true) rest = rest

-- What the loop knows of the characters before: the component so far, whether it is the first one, and
-- the last character of all.
unfoldable pub scan : Bytes → Bytes → Bool → ℕ → Option Bool
unfolding check_chunk and_then_check
scan [] chunk single last =
    if last == 47
    then some false
    else and_then_check (check_chunk chunk) (some (not single || is_upper_case chunk))
scan (c ∷ s) chunk single last =
    let next = scan s (chunk ++ c ∷ []) single c in
    let component = scan s [] false c in
    if is_refused c
    then some false
    else if c == 46
    then (if last == 46 then some false else next)
    else if c == 123
    then (if last == 64 then some false else next)
    else if c == 47
    then (if last == 47 then some false else and_then_check (check_chunk chunk) component)
    else next

unfoldable pub is_valid_name : Bytes → Option Bool
is_valid_name [] = some false
is_valid_name (c ∷ name) = scan (c ∷ name) [] true 0
