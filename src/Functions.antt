-- ===== src/Functions.antt =====
-- libs/cov-api/src/cov/io/function_coverage.cc, `merge_aliases`, and its types in
-- libs/cov-api/include/cov/report.hh: the calls of the functions that stand at one place of a file.
pub mod Calls
pub mod Places
pub mod Examples
use git2_cxx.Base.{
  ℕ, ◌+◌, ◌==◌, ◌%◌, ◌^◌, Bool, true, false, ◌&&◌, List, [], ◌∷◌, Bytes, ltb, if◌then◌else◌,
}
use git2_cxx.Text.{eqb, less}

pub record TextPos : Type 0 where
  pub line : ℕ
  pub column : ℕ

pub record FunctionPos : Type 0 where
  pub start : TextPos
  pub end : TextPos

-- `function_coverage::entry`.
pub record FunctionEntry : Type 0 where
  pub name : Bytes
  pub demangled_name : Bytes
  pub count : ℕ
  pub pos : FunctionPos

pub record SimpleFunctionName : Type 0 where
  pub link : Bytes
  pub demangled : Bytes

pub record FunctionName : Type 0 where
  pub link : Bytes
  pub demangled : Bytes
  pub count : ℕ

pub record Function : Type 0 where
  pub pos : FunctionPos
  pub names : List FunctionName
  pub count : ℕ

-- The default `operator<=>` of positions and of names, as the maps use it.
abbrev then_less : ℕ → ℕ → Bool → Bool
then_less a b rest = if ltb a b then true else if a == b then rest else false

unfoldable pub pos_eqb : FunctionPos → FunctionPos → Bool
pos_eqb p q =
    (p.start.line == q.start.line && p.start.column == q.start.column)
    && (p.end.line == q.end.line && p.end.column == q.end.column)

unfoldable pub pos_less : FunctionPos → FunctionPos → Bool
pos_less p q = then_less p.start.line q.start.line (
    then_less p.start.column q.start.column
      (then_less p.end.line q.end.line (then_less p.end.column q.end.column false)))

unfoldable pub name_eqb : SimpleFunctionName → SimpleFunctionName → Bool
name_eqb m n = eqb m.link n.link && eqb m.demangled n.demangled

unfoldable pub name_less : SimpleFunctionName → SimpleFunctionName → Bool
name_less m n =
    if less m.link n.link
    then true
    else if eqb m.link n.link
    then less m.demangled n.demangled
    else false

-- A `std::map` is the list of its pairs in order. `names[name] += count`, on unsigned counts.
abbrev pub Names : Type 0
Names = List (SimpleFunctionName × ℕ)

unfoldable pub add_name : Names → SimpleFunctionName → ℕ → Names
unfolding name_eqb name_less
add_name [] name count = (name, count % 2 ^ 32) ∷ []
add_name ((other, calls) ∷ names) name count =
    let rest = add_name names name count in
    if name_less other name
    then (other, calls) ∷ rest
    else if name_eqb other name
    then (other, (calls + count) % 2 ^ 32) ∷ names
    else (name, count % 2 ^ 32) ∷ ((other, calls) ∷ names)

-- `aliases[pos][name] += count`.
abbrev pub Aliases : Type 0
Aliases = List (FunctionPos × Names)

unfoldable pub add_alias : Aliases → FunctionPos → SimpleFunctionName → ℕ → Aliases
unfolding add_name pos_eqb pos_less
add_alias [] pos name count = (pos, add_name [] name count) ∷ []
add_alias ((other, names) ∷ aliases) pos name count =
    let rest = add_alias aliases pos name count in
    if pos_less other pos
    then (other, names) ∷ rest
    else if pos_eqb other pos
    then (other, add_name names name count) ∷ aliases
    else (pos, add_name [] name count) ∷ ((other, names) ∷ aliases)

unfoldable pub add_aliases : List FunctionEntry → Aliases → Aliases
unfolding add_alias
add_aliases [] aliases = aliases
add_aliases (entry ∷ entries) aliases = add_aliases entries (
    add_alias aliases entry.pos (record { link = entry.name; demangled = entry.demangled_name })
      entry.count)

unfoldable pub call_names : Names → List FunctionName
call_names [] = []
call_names ((name, count) ∷ names) =
    record { link = name.link; demangled = name.demangled; count = count } ∷ call_names names

-- `call.count += count` for every name.
unfoldable pub call_count : Names → ℕ → ℕ
call_count [] total = total
call_count ((name, count) ∷ names) total = call_count names ((total + count) % 2 ^ 32)

unfoldable pub functions_of : Aliases → List Function
unfolding call_names call_count
functions_of [] = []
functions_of ((pos, names) ∷ aliases) =
    record { pos = pos; names = call_names names; count = call_count names 0 }
    ∷ functions_of aliases

unfoldable pub merge_aliases : List FunctionEntry → List Function
unfolding add_aliases functions_of
merge_aliases entries = functions_of (add_aliases entries [])
