-- ===== src/Modules/Config.antt =====
-- libs/cov-api/src/cov/module.cc, `modules::from_config`: modules read from the entries of a git
-- configuration, and what they hold.
use git2_cxx.Base.{
  ℕ, zero, suc, ◌-◌, ◌==◌, not, List, [], ◌∷◌, ◌++◌, Option, none, some, Bytes, if◌then◌else◌,
  codes, length, drop, take,
}
use git2_cxx.Text.{eqb, starts_with}
use git2_cxx.Text.Parts.{ends_with}
use git2_cxx.Modules.{ModuleInfo, Modules}

pub record ConfigEntry : Type 0 where
  pub name : Bytes
  pub value : Bytes

-- The module whose path an entry gives: `mod_name`, if it is not empty.
unfoldable pub mod_name : Bytes → Option Bytes
unfolding ends_with
mod_name view =
    let key = drop 7 view in
    let name = take (length key - 5) key in
    if not (starts_with view (codes "module."))
    then none
    else if not (ends_with key (codes ".path"))
    then none
    else if length name == 0
    then none
    else some name

-- What the callback of `from_config` captures; the map is an association list.
pub record Read : Type 0 where
  pub sep : Bytes
  pub positions : List (Bytes × ℕ)
  pub result : List ModuleInfo

unfoldable pub position : List (Bytes × ℕ) → Bytes → Option ℕ
position [] name = none
position ((key, index) ∷ positions) name =
    if eqb key name then some index else position positions name

-- `result[index].prefixes.push_back(value)`.
unfoldable pub push_prefix : List ModuleInfo → ℕ → Bytes → List ModuleInfo
push_prefix [] index value = []
push_prefix (mod' ∷ result) zero value =
    record mod' { prefixes = mod'.prefixes ++ value ∷ [] } ∷ result
push_prefix (mod' ∷ result) (suc index) value = mod' ∷ push_prefix result index value

unfoldable pub add_value : Read → Bytes → Bytes → Read
unfolding position push_prefix
add_value r name value = elim (position r.positions name) [
  | some index ↦ record r { result = push_prefix r.result index value }
  | none ↦
      let index = length r.result in
      record r {
        positions = (name, index) ∷ r.positions;
        result = push_prefix (r.result ++ record { name = name; prefixes = [] } ∷ []) index value;
      }
]

unfoldable pub on_entry : Read → ConfigEntry → Read
on_entry r entry =
    if eqb entry.name (codes "module.sep")
    then record r { sep = entry.value }
    else elim (mod_name entry.name) [ none ↦ r | some name ↦ add_value r name entry.value ]

unfoldable pub read_entries : List ConfigEntry → Read → Read
unfolding on_entry
read_entries [] r = r
read_entries (entry ∷ entries) r = read_entries entries (on_entry r entry)

unfoldable pub from_config : List ConfigEntry → Modules
unfolding read_entries
from_config entries =
    let r = read_entries entries (record { sep = []; positions = []; result = [] }) in
    record { separator = r.sep; entries = r.result }

-- The values of the entries that give paths of one module, in their order.
unfoldable pub values : Bytes → List ConfigEntry → List Bytes
values name [] = []
values name (entry ∷ entries) = elim (mod_name entry.name) [
  | none ↦ values name entries
  | some other ↦ if eqb other name then entry.value ∷ values name entries else values name entries
]
