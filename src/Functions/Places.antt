-- ===== src/Functions/Places.antt =====
-- The order of the places in `merge_aliases`.
use git2_cxx.Base.{ℕ, true, false, List, [], ◌∷◌, ◌≡◌, arith}
use git2_cxx.Functions.{
  FunctionPos, FunctionEntry, SimpleFunctionName, Function, Aliases, pos_eqb, pos_less, add_alias,
  add_aliases, functions_of, merge_aliases,
}

-- Every place is before the next.
unfoldable pub Follows : FunctionPos → List Function → Type 0
Follows pos [] = Unit
Follows pos (function ∷ functions) = pos_less pos function.pos ≡ true

unfoldable pub IsAscending : List Function → Type 0
unfolding Follows
IsAscending [] = Unit
IsAscending (function ∷ functions) = Follows function.pos functions × IsAscending functions

Above : FunctionPos → Aliases → Type 0
Above pos [] = Unit
Above pos ((other, names) ∷ aliases) = pos_less pos other ≡ true

IsSorted : Aliases → Type 0
IsSorted [] = Unit
IsSorted ((pos, names) ∷ aliases) = Above pos aliases × IsSorted aliases

pos_less-total :
    (p q : FunctionPos) → pos_less p q ≡ false → pos_eqb p q ≡ false → pos_less q p ≡ true
unfolding pos_less pos_eqb
pos_less-total p q h k = ground arith

Above-add_alias :
    (aliases : Aliases) (low pos : FunctionPos) (name : SimpleFunctionName) (count : ℕ)
    → Above low aliases
    → pos_less low pos ≡ true
    → Above low (add_alias aliases pos name count)
unfolding Above add_alias
Above-add_alias [] low pos name count h k = k
Above-add_alias ((other, names) ∷ aliases) low pos name count h k = ground arith

add_alias-IsSorted :
    (aliases : Aliases) (pos : FunctionPos) (name : SimpleFunctionName) (count : ℕ)
    → IsSorted aliases
    → IsSorted (add_alias aliases pos name count)
unfolding IsSorted Above add_alias
add_alias-IsSorted [] pos name count h = (h, h)
add_alias-IsSorted ((other, names) ∷ aliases) pos name count h = ground (
  arith,
  add_alias-IsSorted aliases pos name count,
  Above-add_alias aliases other pos name count,
  pos_less-total other pos,
)

add_aliases-IsSorted :
    (entries : List FunctionEntry) (aliases : Aliases)
    → IsSorted aliases
    → IsSorted (add_aliases entries aliases)
unfolding add_aliases
add_aliases-IsSorted [] aliases h = h
add_aliases-IsSorted (entry ∷ entries) aliases h =
    let name : SimpleFunctionName = record {
      link = entry.name;
      demangled = entry.demangled_name;
    } in
    add_aliases-IsSorted entries (add_alias aliases entry.pos name entry.count)
      (add_alias-IsSorted aliases entry.pos name entry.count h)

functions_of-IsAscending :
    (aliases : Aliases) → IsSorted aliases → IsAscending (functions_of aliases)
unfolding IsSorted Above IsAscending Follows functions_of
functions_of-IsAscending [] h = h
functions_of-IsAscending ((pos, names) ∷ []) h = h
functions_of-IsAscending ((pos, names) ∷ ((next, others) ∷ aliases)) h =
    (h.0, functions_of-IsAscending ((next, others) ∷ aliases) h.1)

-- The functions of `merge_aliases` are in strictly ascending order of their places, so that no place
-- is listed twice.
pub merge_aliases-IsAscending : (entries : List FunctionEntry) → IsAscending (merge_aliases entries)
unfolding merge_aliases IsSorted
merge_aliases-IsAscending entries =
    functions_of-IsAscending (add_aliases entries [])
      (add_aliases-IsSorted entries [] (ground arith))
