-- ===== src/Functions/Calls.antt =====
-- The calls that `merge_aliases` counts at one place.
use git2_cxx.Base.{ℕ, ◌+◌, ◌%◌, ◌^◌, true, List, [], ◌∷◌, if◌then◌else◌, ◌≡◌, refl, arith}
use git2_cxx.Functions.{
  FunctionPos, FunctionEntry, SimpleFunctionName, Function, Names, Aliases, pos_eqb, add_name,
  add_alias, add_aliases, call_count, functions_of, merge_aliases,
}

-- The calls of the entries at a place, and of the functions at it.
unfoldable pub entries_at : FunctionPos → List FunctionEntry → ℕ
entries_at pos [] = 0
entries_at pos (entry ∷ entries) =
    (if pos_eqb entry.pos pos then entry.count else 0) + entries_at pos entries

unfoldable pub calls_at : FunctionPos → List Function → ℕ
calls_at pos [] = 0
calls_at pos (function ∷ functions) =
    (if pos_eqb function.pos pos then function.count else 0) + calls_at pos functions

sum_names : Names → ℕ
sum_names [] = 0
sum_names ((name, count) ∷ names) = count + sum_names names

names_at : FunctionPos → Aliases → ℕ
names_at pos [] = 0
names_at pos ((other, names) ∷ aliases) =
    (if pos_eqb other pos then sum_names names else 0) + names_at pos aliases

call_count-sum_names :
    (names : Names) (total : ℕ)
    → call_count names total % 2 ^ 32 ≡ (total + sum_names names) % 2 ^ 32
unfolding call_count sum_names
call_count-sum_names [] total = omega arith
call_count-sum_names ((name, count) ∷ names) total =
    omega (arith, call_count-sum_names names ((total + count) % 2 ^ 32))

sum_names-add_name :
    (names : Names) (name : SimpleFunctionName) (count : ℕ)
    → sum_names (add_name names name count) % 2 ^ 32 ≡ (sum_names names + count) % 2 ^ 32
unfolding add_name sum_names
sum_names-add_name [] name count = omega arith
sum_names-add_name ((other, calls) ∷ names) name count =
    ground (arith, sum_names-add_name names name count)

sum_names-new :
    (name : SimpleFunctionName) (count : ℕ) → sum_names (add_name [] name count) ≡ count % 2 ^ 32
unfolding add_name sum_names
sum_names-new name count = omega arith

pos_eqb_same : (p q r : FunctionPos) → pos_eqb p q ≡ true → pos_eqb p r ≡ pos_eqb q r
unfolding pos_eqb
pos_eqb_same p q r h = ground arith

names_at-add_alias :
    (aliases : Aliases) (pos x : FunctionPos) (name : SimpleFunctionName) (count : ℕ)
    → names_at x (add_alias aliases pos name count) % 2 ^ 32
      ≡ (names_at x aliases + (if pos_eqb pos x then count else 0)) % 2 ^ 32
unfolding add_alias names_at
names_at-add_alias [] pos x name count = ground (arith, sum_names-new name count)
names_at-add_alias ((other, names) ∷ aliases) pos x name count = ground (
  arith,
  names_at-add_alias aliases pos x name count,
  sum_names-add_name names name count,
  sum_names-new name count,
  pos_eqb_same other pos x,
)

names_at-add_aliases :
    (entries : List FunctionEntry) (aliases : Aliases) (x : FunctionPos)
    → names_at x (add_aliases entries aliases) % 2 ^ 32
      ≡ (names_at x aliases + entries_at x entries) % 2 ^ 32
unfolding add_aliases entries_at
names_at-add_aliases [] aliases x = omega arith
names_at-add_aliases (entry ∷ entries) aliases x =
    let name : SimpleFunctionName = record {
      link = entry.name;
      demangled = entry.demangled_name;
    } in
    omega (
      arith,
      names_at-add_aliases entries (add_alias aliases entry.pos name entry.count) x,
      names_at-add_alias aliases entry.pos x name entry.count,
    )

calls_at-functions_of :
    (aliases : Aliases) (x : FunctionPos)
    → calls_at x (functions_of aliases) % 2 ^ 32 ≡ names_at x aliases % 2 ^ 32
unfolding functions_of calls_at names_at
calls_at-functions_of [] x = refl
calls_at-functions_of ((pos, names) ∷ aliases) x =
    ground (arith, calls_at-functions_of aliases x, call_count-sum_names names 0)

-- At every place, the functions of `merge_aliases` have the calls of all the entries there, counted
-- as unsigned numbers of 32 bits.
pub merge_aliases-calls :
    (entries : List FunctionEntry) (x : FunctionPos)
    → calls_at x (merge_aliases entries) % 2 ^ 32 ≡ entries_at x entries % 2 ^ 32
unfolding merge_aliases names_at
merge_aliases-calls entries x =
    let all_of = add_aliases entries [] in
    omega (arith, calls_at-functions_of all_of x, names_at-add_aliases entries [] x)
