-- ===== src/Modules/Edit.antt =====
-- The edits of libs/cov-api/src/cov/module.cc and the validity of a list of modules.
use git2_cxx.Base.{
  Bool, true, false, ◌||◌, List, [], ◌∷◌, ◌++◌, Bytes, if◌then◌else◌, ◌≡◌, refl, arith, Bool-cases,
  inl, inr,
}
use git2_cxx.Text.{eqb}
use git2_cxx.Text.Order.{eqb_refl, eqb→eq, eqb_comm}
use git2_cxx.Modules.{
  ModuleInfo, Modules, ModErrc, unmodified, needs_update, lists, add_entry, add, erase_path,
  erase_empty, remove_entry, remove, remove_module, remove_all, set_separator,
}

unfoldable pub has_name : List ModuleInfo → Bytes → Bool
has_name [] name = false
has_name (entry ∷ entries) name = eqb entry.name name || has_name entries name

-- The prefixes of the module with a name, none if there is no such module.
unfoldable pub prefixes_of : List ModuleInfo → Bytes → List Bytes
prefixes_of [] name = []
prefixes_of (entry ∷ entries) name =
    if eqb entry.name name then entry.prefixes else prefixes_of entries name

unfoldable pub is_empty : List Bytes → Bool
is_empty [] = true
is_empty (pre ∷ prefixes) = false

-- No two entries have one name, and every entry has a prefix.
unfoldable pub IsValidEntries : List ModuleInfo → Type 0
unfolding has_name is_empty
IsValidEntries [] = Unit
IsValidEntries (entry ∷ entries) =
    (has_name entries entry.name ≡ false)
    × (is_empty entry.prefixes ≡ false)
    × IsValidEntries entries

pub is_empty-append : (xs : List Bytes) (x : Bytes) → is_empty (xs ++ x ∷ []) ≡ false
unfolding is_empty
is_empty-append [] x = refl
is_empty-append (y ∷ xs) x = refl

has_name-add_entry :
    (entries : List ModuleInfo) (name path other : Bytes)
    → has_name (add_entry entries name path).0 other ≡ (eqb name other || has_name entries other)
unfolding has_name add_entry
has_name-add_entry [] name path other = refl
has_name-add_entry (entry ∷ entries) name path other = elim (Bool-cases (eqb entry.name name)) [
  | inl e ↦ let same = eqb→eq entry.name name e in ground arith
  | inr e ↦ ground (arith, has_name-add_entry entries name path other)
]

add_entry-IsValidEntries :
    (entries : List ModuleInfo) (name path : Bytes)
    → IsValidEntries entries
    → IsValidEntries (add_entry entries name path).0
unfolding IsValidEntries add_entry has_name is_empty
add_entry-IsValidEntries [] name path h = ground arith
add_entry-IsValidEntries (entry ∷ entries) name path h = ground (
  arith,
  add_entry-IsValidEntries entries name path,
  has_name-add_entry entries name path entry.name,
  is_empty-append entry.prefixes path,
  eqb_comm name entry.name,
)

has_name-erase_empty :
    (entry : ModuleInfo) (entries : List ModuleInfo) (result : ModErrc) (other : Bytes)
    → has_name (entry ∷ entries) other ≡ false
    → has_name (erase_empty entry entries result).0 other ≡ false
unfolding has_name erase_empty
has_name-erase_empty entry entries result other h = ground arith

erase_empty-IsValidEntries :
    (entry : ModuleInfo) (entries : List ModuleInfo) (result : ModErrc)
    → has_name entries entry.name ≡ false
    → IsValidEntries entries
    → IsValidEntries (erase_empty entry entries result).0
unfolding IsValidEntries erase_empty is_empty
erase_empty-IsValidEntries entry entries result h k = ground arith

erase_empty-kept :
    (entry : ModuleInfo) (entries : List ModuleInfo) (result : ModErrc)
    → is_empty entry.prefixes ≡ false
    → erase_empty entry entries result ≡ (entry ∷ entries, result)
unfolding erase_empty is_empty
erase_empty-kept entry entries result h = ground arith

has_name-remove_entry :
    (entries : List ModuleInfo) (name path other : Bytes)
    → has_name entries other ≡ false
    → has_name (remove_entry entries name path).0 other ≡ false
unfolding has_name remove_entry erase_empty
has_name-remove_entry [] name path other h = refl
has_name-remove_entry (entry ∷ entries) name path other h = ground (
  arith,
  has_name-remove_entry entries name path other,
  has_name-erase_empty entry entries unmodified other,
  has_name-erase_empty (record entry { prefixes = erase_path entry.prefixes path }) entries
      needs_update other,
)

remove_entry-IsValidEntries :
    (entries : List ModuleInfo) (name path : Bytes)
    → IsValidEntries entries
    → IsValidEntries (remove_entry entries name path).0
unfolding IsValidEntries remove_entry
remove_entry-IsValidEntries [] name path h = h
remove_entry-IsValidEntries (entry ∷ entries) name path h = ground (
  arith,
  remove_entry-IsValidEntries entries name path,
  has_name-remove_entry entries name path entry.name,
  erase_empty-IsValidEntries entry entries unmodified h.0 h.2,
  erase_empty-IsValidEntries (record entry { prefixes = erase_path entry.prefixes path }) entries
      needs_update h.0 h.2,
)

has_name-remove_module :
    (entries : List ModuleInfo) (name other : Bytes)
    → has_name entries other ≡ false
    → has_name (remove_module entries name).0 other ≡ false
unfolding has_name remove_module
has_name-remove_module [] name other h = refl
has_name-remove_module (entry ∷ entries) name other h =
    ground (arith, has_name-remove_module entries name other)

remove_module-IsValidEntries :
    (entries : List ModuleInfo) (name : Bytes)
    → IsValidEntries entries
    → IsValidEntries (remove_module entries name).0
unfolding IsValidEntries remove_module
remove_module-IsValidEntries [] name h = h
remove_module-IsValidEntries (entry ∷ entries) name h = ground (
  arith,
  remove_module-IsValidEntries entries name,
  has_name-remove_module entries name entry.name,
)

unfoldable pub IsValid : Modules → Type 0
IsValid m = IsValidEntries m.entries

-- No edit gives two modules one name, or leaves a module without a prefix.
pub edits-IsValid :
    (m : Modules) (name path : Bytes)
    → IsValid m
    → IsValid (add m name path).0
      × IsValid (remove m name path).0
      × IsValid (remove_all m name).0
      × IsValid (set_separator m path).0
unfolding IsValid add remove remove_all set_separator
edits-IsValid m name path h = (
  add_entry-IsValidEntries m.entries name path h,
  remove_entry-IsValidEntries m.entries name path h,
  remove_module-IsValidEntries m.entries name h,
  ground (arith, h),
)

lists-append : (xs : List Bytes) (path : Bytes) → lists (xs ++ path ∷ []) path ≡ true
unfolding lists
lists-append [] path = rw (eqb_refl path) refl
lists-append (x ∷ xs) path = ground (arith, lists-append xs path)

erase_path-append :
    (xs : List Bytes) (path : Bytes)
    → lists xs path ≡ false
    → erase_path (xs ++ path ∷ []) path ≡ xs
unfolding lists erase_path
erase_path-append [] path h = rw (eqb_refl path) refl
erase_path-append (x ∷ xs) path h = ground (arith, erase_path-append xs path)

remove_entry-add_entry :
    (entries : List ModuleInfo) (name path : Bytes)
    → IsValidEntries entries
    → lists (prefixes_of entries name) path ≡ false
    → remove_entry (add_entry entries name path).0 name path ≡ (entries, needs_update)
unfolding IsValidEntries remove_entry add_entry prefixes_of erase_empty is_empty lists erase_path
remove_entry-add_entry [] name path h k = rw (eqb_refl name, eqb_refl path) refl
remove_entry-add_entry (entry ∷ entries) name path h k = ground (
  arith,
  remove_entry-add_entry entries name path,
  lists-append entry.prefixes path,
  erase_path-append entry.prefixes path,
  erase_empty-kept entry entries needs_update,
)

-- In a valid list of modules, `remove` takes back the path that `add` has put into a module, or into
-- a new one, unless that module already had the path.
pub remove-add :
    (m : Modules) (name path : Bytes)
    → IsValid m
    → lists (prefixes_of m.entries name) path ≡ false
    → remove (add m name path).0 name path ≡ (m, needs_update)
unfolding IsValid add remove
remove-add m name path h k = rw (remove_entry-add_entry m.entries name path h k) refl
