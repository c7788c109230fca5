-- ===== src/Text/Parts.antt =====
-- extras/libs/ext_native/include/native/str.hh: white space, lower case and the parts of a text.
use git2_cxx.Base.{
  ℕ, ◌+◌, ◌-◌, ltb, length, drop, false, ◌==◌, Bool, ◌&&◌, ◌||◌, List, [], ◌∷◌, Bytes, leb,
  if◌then◌else◌,
}
use git2_cxx.Text.{eqb}

-- `std::string_view::ends_with`.
unfoldable pub ends_with : Bytes → Bytes → Bool
ends_with s end =
    if ltb (length s) (length end) then false else eqb (drop (length s - length end) s) end

-- `std::isspace` of the C locale, `trim` and `tolower`.
unfoldable pub is_space : ℕ → Bool
is_space c = c == 32 || (leb 9 c && leb c 13)

unfoldable pub trim_front : Bytes → Bytes
unfolding is_space
trim_front [] = []
trim_front (c ∷ s) = if is_space c then trim_front s else c ∷ s

unfoldable pub trim_back : Bytes → Bytes
unfolding is_space
trim_back [] = []
trim_back (c ∷ s) = elim (trim_back s) [
  | [] ↦ if is_space c then [] else c ∷ []
  | d ∷ rest ↦ c ∷ (d ∷ rest)
]

unfoldable pub trim : Bytes → Bytes
unfolding trim_front trim_back
trim s = trim_back (trim_front s)

unfoldable pub tolower : Bytes → Bytes
tolower [] = []
tolower (c ∷ s) = (if leb 65 c && leb c 90 then c + 32 else c) ∷ tolower s

-- `split`: the parts that its callback is called with, in order.
unfoldable pub to_first : ℕ → List Bytes → List Bytes
to_first c [] = (c ∷ []) ∷ []
to_first c (part ∷ parts) = (c ∷ part) ∷ parts

unfoldable pub split : Bytes → ℕ → List Bytes
unfolding to_first
split [] sep = [] ∷ []
split (c ∷ s) sep = let rest = split s sep in if c == sep then [] ∷ rest else to_first c rest
