-- ===== src/Objects/Props.antt =====
-- The properties of a build, which libs/cov-api/src/cov/io/report.cc keeps as the text of a JSON
-- dictionary without its braces. Reading and writing JSON is done by a library.
use git2_cxx.Base.{
  ℕ, ◌+◌, ◌-◌, ◌*◌, ◌^◌, ◌==◌, Bool, true, false, ◌&&◌, ◌||◌, List, [], ◌∷◌, ◌++◌, Option, none,
  some, Bytes, ltb, leb, if◌then◌else◌, codes, length, take, map,
}
use git2_cxx.Base.Int.{ℤ, pos, neg_ℕ}
use git2_cxx.Text.{eqb}
use git2_cxx.Text.Parts.{trim}

-- The nodes that the source makes.
pub data Node : Type 0 where
  text : Bytes → Node
  truth : Bool → Node
  number : ℤ → Node

-- What the source calls of the library: a dictionary with `set`, its concise text, and the
-- dictionary that a text holds, if it is one.
pub record Json : Type 1 where
  pub Map : Type 0
  pub empty : Map
  pub set : Map → Bytes → Node → Map
  pub write : Map → Bytes
  pub read : Bytes → Option Map

unfoldable pub strip : Bytes → Bytes
unfolding trim
strip s = trim s

-- A text without its last byte, if that is a quote.
unfoldable pub drop_quote : ℕ → Bytes → Bytes
drop_quote quote [] = []
drop_quote quote (c ∷ []) = if c == quote then [] else c ∷ []
drop_quote quote (c ∷ (d ∷ s)) = c ∷ drop_quote quote (d ∷ s)

-- `std::from_chars` for a `long long`, where it takes the whole text and the value fits.
unfoldable pub digits_from : Bytes → ℕ → Option ℕ
digits_from [] value = some value
digits_from (c ∷ s) value =
    let rest = digits_from s (value * 10 + (c - 48)) in if leb 48 c && leb c 57 then rest else none

unfoldable pub natural_from : Bytes → Option ℕ
natural_from [] = none
natural_from (c ∷ s) = digits_from (c ∷ s) 0

unfoldable pub signed_from : Bool → ℕ → Option ℤ
signed_from true n = if leb n (2 ^ 63) then some (neg_ℕ n) else none
signed_from false n = if ltb n (2 ^ 63) then some (pos n) else none

unfoldable pub signed_natural : Bool → Bytes → Option ℤ
signed_natural negative s = elim (natural_from s) [ none ↦ none | some n ↦ signed_from negative n ]

unfoldable pub from_chars : Bytes → Option ℤ
from_chars [] = none
from_chars (c ∷ s) = if c == 45 then signed_natural true s else signed_natural false (c ∷ s)

unfoldable pub plain_node : Bytes → Node
plain_node value =
    if eqb value (codes "true") || eqb value (codes "on")
    then truth true
    else if eqb value (codes "false") || eqb value (codes "off")
    then truth false
    else elim (from_chars value) [ some n ↦ number n | none ↦ text value ]

unfoldable pub node : Bytes → Node
node [] = text []
node (c ∷ s) =
    if c == 39
    then text (drop_quote 39 s)
    else if c == 34
    then text (drop_quote 34 s)
    else plain_node (c ∷ s)

-- What stands before and behind the first '='.
unfoldable pub split_equals : Bytes → Option (Bytes × Bytes)
split_equals [] = none
split_equals (c ∷ s) =
    if c == 61
    then some ([], s)
    else elim (split_equals s) [ none ↦ none | some (name, value) ↦ some (c ∷ name, value) ]

-- A text in braces has them taken off, whatever its last byte is.
unfoldable pub unbrace : Bytes → Bytes
unbrace [] = []
unbrace (c ∷ s) = if c == 123 then take (length s - 1) s else c ∷ s

unfoldable pub embrace : Bytes → Bytes
embrace [] = []
embrace (c ∷ s) = if c == 123 then c ∷ s else 123 ∷ ((c ∷ s) ++ 125 ∷ [])

module _ (json : Json) where
  unfoldable pub set_property : json.Map → Bytes → json.Map
  set_property map prop = elim (split_equals (strip prop)) [
    | none ↦ json.set map (strip prop) (text [])
    | some (name, value) ↦ json.set map (strip name) (node (strip value))
  ]

  unfoldable pub set_properties : List Bytes → json.Map → json.Map
  set_properties [] map = map
  set_properties (prop ∷ props) map = set_properties props (set_property map prop)

  -- `builder::properties`.
  unfoldable pub properties : List Bytes → Bytes
  properties propset = unbrace (json.write (set_properties propset json.empty))

  -- `builder::normalize`.
  unfoldable pub normalize : Bytes → Bytes
  normalize props = elim (strip props) [
    | [] ↦ []
    | c ∷ s ↦ elim (json.read (embrace (c ∷ s))) [ none ↦ [] | some map ↦ unbrace (json.write map) ]
  ]
