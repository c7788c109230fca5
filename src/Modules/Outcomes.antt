-- ===== src/Modules/Outcomes.antt =====
-- What `add` and `remove` return and change, on every branch.
use git2_cxx.Base.{
  Bool, true, false, not, ◌&&◌, List, [], ◌∷◌, ◌++◌, Bytes, if◌then◌else◌, ◌≡◌, refl, ap, sym, ◌∙◌,
  arith, Bool-cases, inl, inr,
}
use git2_cxx.Text.{eqb}
use git2_cxx.Text.Order.{eqb_refl, ne→eqb, eqb→eq, eqb_same, eqb_join}
use git2_cxx.Strings.Sorted.{In}
use git2_cxx.Modules.{
  ModuleInfo, Modules, ModErrc, unmodified, needs_update, duplicate, no_module, lists, add_entry,
  add, erase_path, erase_empty, remove_entry, remove,
}
use git2_cxx.Modules.Edit.{has_name, prefixes_of, is_empty, IsValidEntries, IsValid}

add_entry_lem :
    (entries : List ModuleInfo) (name path x : Bytes)
    → lists (prefixes_of entries name) path ≡ false
    → ((add_entry entries name path).1 ≡ needs_update)
      × (prefixes_of (add_entry entries name path).0 x
          ≡ (if eqb name x then prefixes_of entries x ++ path ∷ [] else prefixes_of entries x))
unfolding add_entry prefixes_of lists
add_entry_lem [] name path x h = ground arith
add_entry_lem (entry ∷ entries) name path x h = ground (
  arith,
  add_entry_lem entries name path x,
  eqb_same entry.name name x,
  eqb_join entry.name name x,
)

add_entry-duplicate :
    (entries : List ModuleInfo) (name path : Bytes)
    → lists (prefixes_of entries name) path ≡ true
    → add_entry entries name path ≡ (entries, duplicate)
unfolding add_entry prefixes_of lists
add_entry-duplicate [] name path h = cc
add_entry-duplicate (entry ∷ entries) name path h =
    ground (arith, add_entry-duplicate entries name path)

-- `add` of a path that its module has says so and changes no module's paths; any other path goes to
-- the end of its module's, and of no other's.
pub add-outcome :
    (m : Modules) (name path x : Bytes)
    → let listed = lists (prefixes_of m.entries name) path in
      ((add m name path).1 ≡ (if listed then duplicate else needs_update))
      × (prefixes_of (add m name path).0.entries x ≡ (
          if not listed && eqb name x
          then prefixes_of m.entries x ++ path ∷ []
          else prefixes_of m.entries x))
unfolding add
add-outcome m name path x = elim (Bool-cases (lists (prefixes_of m.entries name) path)) [
  | inl h ↦ rw (h, add_entry-duplicate m.entries name path h) (refl, refl)
  | inr h ↦ rw h (add_entry_lem m.entries name path x h)
]

not_first :
    (first path : Bytes) (paths : List Bytes)
    → eqb first path ≡ false
    → ¬ In path paths
    → ¬ In path (first ∷ paths)
not_first first path paths differs n (inl e) =
    absurd (ground (arith, differs, ap (λ p. eqb first p) e, eqb_refl first))
not_first first path paths differs n (inr i) = n i

prefixes_of-missing :
    (entries : List ModuleInfo) (name : Bytes)
    → has_name entries name ≡ false
    → prefixes_of entries name ≡ []
unfolding has_name prefixes_of
prefixes_of-missing [] name h = refl
prefixes_of-missing (entry ∷ entries) name h = ground (arith, prefixes_of-missing entries name)

erase_path-missing :
    (prefixes : List Bytes) (path : Bytes)
    → lists prefixes path ≡ false
    → erase_path prefixes path ≡ prefixes
unfolding lists erase_path
erase_path-missing [] path h = refl
erase_path-missing (pre ∷ prefixes) path h = ground (arith, erase_path-missing prefixes path)

prefixes_of-erase_empty :
    (entry : ModuleInfo) (entries : List ModuleInfo) (result : ModErrc) (x : Bytes)
    → has_name entries entry.name ≡ false
    → prefixes_of (erase_empty entry entries result).0 x
      ≡ (if eqb entry.name x then entry.prefixes else prefixes_of entries x)
unfolding erase_empty prefixes_of
prefixes_of-erase_empty entry entries result x h = elim (Bool-cases (eqb entry.name x)) [
  | inl e ↦
      let here : has_name entries x ≡ false =
        ap (has_name entries) (sym (eqb→eq entry.name x e)) ∙ h in
      ground (arith, prefixes_of-missing entries x here)
  | inr e ↦ ground (arith)
]

erase_empty-updated :
    (entry : ModuleInfo) (entries : List ModuleInfo)
    → (erase_empty entry entries needs_update).1 ≡ needs_update
unfolding erase_empty
erase_empty-updated entry entries = ground arith

erase_empty-unmodified :
    (entry : ModuleInfo) (entries : List ModuleInfo)
    → is_empty entry.prefixes ≡ false
    → (erase_empty entry entries unmodified).1 ≡ unmodified
unfolding erase_empty is_empty
erase_empty-unmodified entry entries h = ground arith

remove_entry-code :
    (entries : List ModuleInfo) (name path : Bytes)
    → IsValidEntries entries
    → (remove_entry entries name path).1 ≡ (
        if has_name entries name
        then if lists (prefixes_of entries name) path then needs_update else unmodified
        else no_module)
unfolding remove_entry has_name prefixes_of IsValidEntries
remove_entry-code [] name path h = refl
remove_entry-code (entry ∷ entries) name path h = ground (
  arith,
  remove_entry-code entries name path,
  erase_empty-updated (record entry { prefixes = erase_path entry.prefixes path }) entries,
  erase_empty-unmodified entry entries,
)

remove_entry-prefixes_of :
    (entries : List ModuleInfo) (name path x : Bytes)
    → IsValidEntries entries
    → prefixes_of (remove_entry entries name path).0 x
      ≡ (if eqb name x then erase_path (prefixes_of entries x) path else prefixes_of entries x)
unfolding remove_entry has_name prefixes_of IsValidEntries erase_path
remove_entry-prefixes_of [] name path x h = ground arith
remove_entry-prefixes_of (entry ∷ entries) name path x h = ground (
  arith,
  remove_entry-prefixes_of entries name path x,
  prefixes_of-erase_empty entry entries unmodified x,
  prefixes_of-erase_empty (record entry { prefixes = erase_path entry.prefixes path }) entries
      needs_update x,
  eqb_same entry.name name x,
  eqb_join entry.name name x,
  erase_path-missing entry.prefixes path,
)

-- Where a path first stands in a list: nowhere, or behind paths that are all different.
pub data Occurrence (path : Bytes) (paths : List Bytes) : Type 0 where
  nowhere : ¬ In path paths → Occurrence path paths
  behind :
      (before after : List Bytes)
      → ¬ In path before
      → paths ≡ before ++ path ∷ after
      → Occurrence path paths

module _ {path : Bytes} {paths : List Bytes} where
  abbrev pub is_there : Occurrence path paths → Bool
  is_there (nowhere n) = false
  is_there (behind before after n e) = true

  -- The paths without this one.
  abbrev pub others : Occurrence path paths → List Bytes
  others (nowhere n) = paths
  others (behind before after n e) = before ++ after

-- Every path stands somewhere or nowhere in a list.
pub occurrence : (path : Bytes) (paths : List Bytes) → Occurrence path paths
occurrence path [] = nowhere (λ i. i)
occurrence path (first ∷ paths) = elim (Bool-cases (eqb first path)) [
  | inl e ↦ behind [] paths (λ i. i) (ap (λ p. p ∷ paths) (eqb→eq first path e))
  | inr e ↦ elim (occurrence path paths) [
    | nowhere n ↦ nowhere (not_first first path paths e n)
    | behind before after n same ↦
        behind (first ∷ before) after (not_first first path before e n) (ap (first ∷◌) same)
  ]
]

lists-nowhere : (paths : List Bytes) (path : Bytes) → ¬ In path paths → lists paths path ≡ false
unfolding lists
lists-nowhere [] path n = refl
lists-nowhere (first ∷ paths) path n =
    let differs = ne→eqb first path (λ e. n (inl (sym e))) in
    rw differs (lists-nowhere paths path (λ i. n (inr i)))

lists-behind :
    (before after : List Bytes) (path : Bytes)
    → ¬ In path before
    → lists (before ++ path ∷ after) path ≡ true
unfolding lists
lists-behind [] after path n = rw (eqb_refl path) refl
lists-behind (first ∷ before) after path n =
    let differs = ne→eqb first path (λ e. n (inl (sym e))) in
    rw differs (lists-behind before after path (λ i. n (inr i)))

erase_path-behind :
    (before after : List Bytes) (path : Bytes)
    → ¬ In path before
    → erase_path (before ++ path ∷ after) path ≡ before ++ after
unfolding erase_path
erase_path-behind [] after path n = rw (eqb_refl path) refl
erase_path-behind (first ∷ before) after path n =
    let differs = ne→eqb first path (λ e. n (inl (sym e))) in
    rw differs (ap (first ∷◌) (erase_path-behind before after path (λ i. n (inr i))))

is_there_lem :
    (path : Bytes) (paths : List Bytes) (o : Occurrence path paths) → lists paths path ≡ is_there o
is_there_lem path paths (nowhere n) = lists-nowhere paths path n
is_there_lem path paths (behind before after n e) =
    ap (λ ps. lists ps path) e ∙ lists-behind before after path n

others_lem :
    (path : Bytes) (paths : List Bytes) (o : Occurrence path paths)
    → erase_path paths path ≡ others o
others_lem path paths (nowhere n) = erase_path-missing paths path (lists-nowhere paths path n)
others_lem path paths (behind before after n e) =
    ap (λ ps. erase_path ps path) e ∙ erase_path-behind before after path n

-- On a valid list of modules, where `o` says where a path first stands in the module with a name:
-- `remove` tells apart a module that is missing, a path that is, and a path that was removed; it takes
-- the first copy of the path from its module, and leaves the paths of the other modules.
pub remove-outcome :
    (m : Modules) (name path x : Bytes) (o : Occurrence path (prefixes_of m.entries name))
    → IsValid m
    → ((remove m name path).1 ≡ (
        if has_name m.entries name
        then if is_there o then needs_update else unmodified
        else no_module))
      × (prefixes_of (remove m name path).0.entries x
          ≡ (if eqb name x then others o else prefixes_of m.entries x))
unfolding remove IsValid
remove-outcome m name path x o h = (
  remove_entry-code m.entries name path h
      ∙ rw (is_there_lem path (prefixes_of m.entries name) o) refl,
  remove_entry-prefixes_of m.entries name path x h ∙ elim (Bool-cases (eqb name x)) [
    | inl e ↦
        let same = eqb→eq name x e in
        rw e (
          ap (λ y. erase_path (prefixes_of m.entries y) path) (sym same)
          ∙ others_lem path (prefixes_of m.entries name) o)
    | inr e ↦ rw e refl
  ],
)
