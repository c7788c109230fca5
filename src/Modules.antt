-- ===== src/Modules.antt =====
-- libs/cov-api/src/cov/module.cc and include/cov/module.hh: named groups of path prefixes, and the
-- files that each of them holds.
pub mod Filter
pub mod Edit
pub mod Config
pub mod Groups
pub mod Outcomes
pub mod Examples
use git2_cxx.Base.{
  ℕ, zero, suc, ◌+◌, ◌-◌, ◌==◌, Bool, true, false, not, ◌&&◌, ◌||◌, List, [], ◌∷◌, ◌++◌, Option,
  none, some, Bytes, ltb, if◌then◌else◌, codes, length, get_or, take, drop,
}
use git2_cxx.Text.{eqb, starts_with}

pub record ModuleInfo : Type 0 where
  pub name : Bytes
  pub prefixes : List Bytes

pub record Modules : Type 0 where
  pub separator : Bytes
  pub entries : List ModuleInfo

pub data ModErrc : Type 0 where
  unmodified needs_update duplicate no_module : ModErrc

pub record ModuleView (A : Type 0) : Type 0 where
  pub name : Bytes
  pub items : List A

abbrev pub slash : ℕ
slash = 47

-- `prefix.back() == '/'`, false for an empty prefix.
unfoldable pub back_is_slash : Bytes → Bool
back_is_slash [] = false
back_is_slash (c ∷ []) = c == slash
back_is_slash (c ∷ (d ∷ s)) = back_is_slash (d ∷ s)

-- The two overloads of `contains`, for one prefix and for a list of them.
unfoldable pub contains_path : Bytes → Bytes → Bool
unfolding back_is_slash
contains_path prefix path =
    if ltb (length path) (length prefix)
    then false
    else if length prefix == length path
    then eqb prefix path
    else if not (starts_with path prefix)
    then false
    else back_is_slash prefix || get_or path (length prefix) 0 == slash

unfoldable pub contains_any : List Bytes → Bytes → Bool
contains_any [] path = false
contains_any (pre ∷ prefixes) path =
    if contains_path pre path then true else contains_any prefixes path

-- `filter_impl`. A file is anything that has a path. `views` pairs each module with its view, and
-- the last view, which has no name, holds the files of no module.
module _ {A : Type 0} (path : A → Bytes) where
  pub record Views : Type 0 where
    pub views : List (ModuleInfo × List A)
    pub rest : List A

  unfoldable pub push_to : A → List (ModuleInfo × List A) → List (ModuleInfo × List A) × Bool
  push_to file [] = ([], false)
  push_to file ((mod', items) ∷ views) =
      let others = push_to file views in
      if contains_any mod'.prefixes (path file)
      then ((mod', items ++ file ∷ []) ∷ others.0, true)
      else ((mod', items) ∷ others.0, others.1)

  unfoldable pub place : Views → A → Views
  unfolding push_to
  place v file =
      let pushed = push_to file v.views in
      record { views = pushed.0; rest = if pushed.1 then v.rest else v.rest ++ file ∷ [] }

  unfoldable pub place_all : List A → Views → Views
  unfolding place
  place_all [] v = v
  place_all (file ∷ files) v = place_all files (place v file)

  unfoldable pub start_views : List ModuleInfo → List (ModuleInfo × List A)
  start_views [] = []
  start_views (mod' ∷ mods) = (mod', []) ∷ start_views mods

  -- `std::erase_if` of the empty views.
  unfoldable pub named_view : Bytes → List A → List (ModuleView A)
  named_view name [] = []
  named_view name (item ∷ items) = record { name = name; items = item ∷ items } ∷ []

  unfoldable pub used_views : List (ModuleInfo × List A) → List A → List (ModuleView A)
  unfolding named_view
  used_views [] rest = named_view [] rest
  used_views ((mod', items) ∷ views) rest = named_view mod'.name items ++ used_views views rest

  unfoldable pub filter : Modules → List A → List (ModuleView A)
  unfolding place_all start_views used_views
  filter m files =
      let v = place_all files (record { views = start_views m.entries; rest = [] }) in
      used_views v.views v.rest

unfoldable pub set_separator : Modules → Bytes → Modules × ModErrc
set_separator m sep =
    if eqb sep m.separator then (m, unmodified) else (record m { separator = sep }, needs_update)

-- `prefix == path` for a prefix of the list, as `add` and `std::find` look for it.
unfoldable pub lists : List Bytes → Bytes → Bool
lists [] path = false
lists (pre ∷ prefixes) path = eqb pre path || lists prefixes path

-- The loop of `add`.
unfoldable pub add_entry : List ModuleInfo → Bytes → Bytes → List ModuleInfo × ModErrc
unfolding lists
add_entry [] name path = (record { name = name; prefixes = path ∷ [] } ∷ [], needs_update)
add_entry (entry ∷ entries) name path =
    let others = add_entry entries name path in
    if not (eqb entry.name name)
    then (entry ∷ others.0, others.1)
    else if lists entry.prefixes path
    then (entry ∷ entries, duplicate)
    else (record entry { prefixes = entry.prefixes ++ path ∷ [] } ∷ entries, needs_update)

unfoldable pub add : Modules → Bytes → Bytes → Modules × ModErrc
unfolding add_entry
add m name path =
    let added = add_entry m.entries name path in (record m { entries = added.0 }, added.1)

unfoldable pub erase_path : List Bytes → Bytes → List Bytes
erase_path [] path = []
erase_path (pre ∷ prefixes) path = if eqb pre path then prefixes else pre ∷ erase_path prefixes path

-- An entry whose last prefix is gone is erased.
unfoldable pub erase_empty : ModuleInfo → List ModuleInfo → ModErrc → List ModuleInfo × ModErrc
erase_empty entry entries result = elim entry.prefixes [
  | [] ↦ (entries, needs_update)
  | _ ∷ _ ↦ (entry ∷ entries, result)
]

unfoldable pub remove_entry : List ModuleInfo → Bytes → Bytes → List ModuleInfo × ModErrc
unfolding lists erase_path erase_empty
remove_entry [] name path = ([], no_module)
remove_entry (entry ∷ entries) name path =
    let others = remove_entry entries name path in
    if not (eqb entry.name name)
    then (entry ∷ others.0, others.1)
    else if lists entry.prefixes path
    then erase_empty (record entry { prefixes = erase_path entry.prefixes path }) entries
        needs_update
    else erase_empty entry entries unmodified

unfoldable pub remove : Modules → Bytes → Bytes → Modules × ModErrc
unfolding remove_entry
remove m name path =
    let removed = remove_entry m.entries name path in (record m { entries = removed.0 }, removed.1)

unfoldable pub remove_module : List ModuleInfo → Bytes → List ModuleInfo × ModErrc
remove_module [] name = ([], unmodified)
remove_module (entry ∷ entries) name =
    let others = remove_module entries name in
    if eqb entry.name name then (entries, needs_update) else (entry ∷ others.0, others.1)

unfoldable pub remove_all : Modules → Bytes → Modules × ModErrc
unfolding remove_module
remove_all m name =
    let removed = remove_module m.entries name in (record m { entries = removed.0 }, removed.1)
