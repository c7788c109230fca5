-- ===== src/Objects/Files/Sorted.antt =====
-- The builder of a list of files: a map from paths to entries.
use git2_cxx.Base.{
  true, false, List, [], ◌∷◌, ◌++◌, Option, none, some, Bytes, if◌then◌else◌, ◌≡◌, refl, ap, sym,
  ◌∙◌, arith, All, Bool-cases, inl, inr, append_assoc, append-nil, All-append,
}
use git2_cxx.Text.{eqb, less}
use git2_cxx.Text.Order.{
  eqb_refl, eqb→eq, eqb_comm, eqb_same, eqb_join, less_irrefl, less_trans, less-total,
}
use git2_cxx.Objects.Files.{FileEntry, add_file, add_files, by_path}

abbrev pub Below : FileEntry → FileEntry → Type 0
Below e f = less e.path f.path ≡ true

-- The paths are in strict order.
abbrev pub IsAscending : List FileEntry → Type 0
IsAscending [] = Unit
IsAscending (e ∷ entries) = All (Below e) entries × IsAscending entries

All-Below_trans :
    (e f : FileEntry) (entries : List FileEntry)
    → Below e f
    → All (Below f) entries
    → All (Below e) entries
All-Below_trans e f [] h a = tt
All-Below_trans e f (g ∷ entries) h a =
    (less_trans e.path f.path g.path h a.0, All-Below_trans e f entries h a.1)

add_file-All :
    (P : FileEntry → Type 0) (entries : List FileEntry) (entry : FileEntry)
    → P entry
    → All P entries
    → All P (add_file entries entry)
unfolding add_file
add_file-All P [] entry h a = (h, tt)
add_file-All P (e ∷ entries) entry h a = elim (Bool-cases (less e.path entry.path)) [
  | inl l ↦ rw l (a.0, add_file-All P entries entry h a.1)
  | inr l ↦ elim (Bool-cases (eqb e.path entry.path)) [
    | inl q ↦ rw (l, q) (h, a.1)
    | inr q ↦ rw (l, q) (h, a)
  ]
]

add_file-IsAscending :
    (entries : List FileEntry) (entry : FileEntry)
    → IsAscending entries
    → IsAscending (add_file entries entry)
unfolding add_file
add_file-IsAscending [] entry a = (tt, tt)
add_file-IsAscending (e ∷ entries) entry a = elim (Bool-cases (less e.path entry.path)) [
  | inl l ↦
      rw l (add_file-All (Below e) entries entry l a.0, add_file-IsAscending entries entry a.1)
  | inr l ↦ elim (Bool-cases (eqb e.path entry.path)) [
    | inl q ↦ rw (l, q) (rw (← eqb→eq e.path entry.path q) a)
    | inr q ↦
        let first : less entry.path e.path ≡ true =
          less-total e.path entry.path l
            (λ p. cc (eqb_refl entry.path, q, ap (λ t. eqb t entry.path) p)) in
        rw (l, q) ((first, All-Below_trans entry e entries first a.0), a)
  ]
]

rw_less : (s t : Bytes) → eqb s t ≡ true → less s t ≡ false
rw_less s t h = rw (eqb→eq s t h) (less_irrefl t)

by_path-add_file :
    (entries : List FileEntry) (entry : FileEntry) (path : Bytes)
    → by_path (add_file entries entry) path
      ≡ (if eqb entry.path path then some entry else by_path entries path)
unfolding by_path add_file
by_path-add_file [] entry path = refl
by_path-add_file (e ∷ entries) entry path = ground (
  arith,
  by_path-add_file entries entry path,
  eqb_same e.path entry.path path,
  eqb_join e.path entry.path path,
  rw_less e.path entry.path,
)

-- The last entry with a path.
unfoldable pub last_by_path : List FileEntry → Bytes → Option FileEntry
last_by_path [] path = none
last_by_path (e ∷ entries) path = elim (last_by_path entries path) [
  | some f ↦ some f
  | none ↦ if eqb e.path path then some e else none
]

-- No two files have one path.
abbrev pub IsDistinct : List FileEntry → Type 0
IsDistinct [] = Unit
IsDistinct (e ∷ entries) = All (λ f. eqb e.path f.path ≡ false) entries × IsDistinct entries

-- None of the files has the path of one that is there.
abbrev IsNew : List FileEntry → FileEntry → Type 0
IsNew entries f = by_path entries f.path ≡ none

IsNew-add_file :
    (entries : List FileEntry) (entry : FileEntry) (added : List FileEntry)
    → All (λ f. eqb entry.path f.path ≡ false) added
    → All (IsNew entries) added
    → All (IsNew (add_file entries entry)) added
IsNew-add_file entries entry [] d n = tt
IsNew-add_file entries entry (f ∷ added) d n =
    (by_path-add_file entries entry f.path ∙ rw d.0 n.0, IsNew-add_file entries entry added d.1 n.1)

add_files-new :
    (added entries : List FileEntry) (path : Bytes)
    → IsDistinct added
    → All (IsNew entries) added
    → IsAscending entries
    → (files : List FileEntry) × (add_files added entries ≡ some files)
      × IsAscending files
      × (by_path files path
          ≡ elim (last_by_path added path) [ some e ↦ some e | none ↦ by_path entries path ])
unfolding add_files last_by_path
add_files-new [] entries path d n a = (entries, refl, a, refl)
add_files-new (e ∷ added) entries path d n a =
    let (files, there, ascending, found) =
      add_files-new added (add_file entries e) path d.1 (IsNew-add_file entries e added d.0 n.1)
        (add_file-IsAscending entries e a) in
    (
      files,
      rw (n.0, add_files) there,
      ascending,
      ground (arith, found, by_path-add_file entries e path),
    )

by_path-none :
    (e : FileEntry) (entries : List FileEntry) (path : Bytes)
    → All (λ f. eqb e.path f.path ≡ false) entries
    → eqb e.path path ≡ true
    → by_path entries path ≡ none
unfolding by_path
by_path-none e [] path d h = refl
by_path-none e (f ∷ entries) path d h =
    let differs : eqb f.path path ≡ false =
      rw (← eqb→eq e.path path h) (eqb_comm f.path e.path ∙ d.0) in
    rw differs (by_path-none e entries path d.1 h)

last_by_path_lem :
    (added : List FileEntry) (path : Bytes)
    → IsDistinct added
    → last_by_path added path ≡ by_path added path
unfolding last_by_path by_path
last_by_path_lem [] path d = refl
last_by_path_lem (e ∷ added) path d =
    ground (arith, last_by_path_lem added path d.1, by_path-none e added path d.0)

add_file-last :
    (entries : List FileEntry) (entry : FileEntry)
    → All (λ e. Below e entry) entries
    → add_file entries entry ≡ entries ++ entry ∷ []
unfolding add_file
add_file-last [] entry h = refl
add_file-last (e ∷ entries) entry h = rw h.0 (ap (e ∷◌) (add_file-last entries entry h.1))

Behind : List FileEntry → FileEntry → Type 0
Behind entries entry = All (λ e. Below e entry) entries

Behind-append :
    (entries added : List FileEntry) (entry : FileEntry)
    → All (Behind entries) added
    → All (Below entry) added
    → All (Behind (entries ++ entry ∷ [])) added
unfolding Behind
Behind-append entries [] entry h k = tt
Behind-append entries (e ∷ added) entry h k = (
  All-append (λ f. Below f e) entries (entry ∷ []) h.0 (k.0, tt),
  Behind-append entries added entry h.1 k.1,
)

Behind-IsNew :
    (entries : List FileEntry) (entry : FileEntry) → Behind entries entry → IsNew entries entry
unfolding Behind by_path
Behind-IsNew [] entry h = refl
Behind-IsNew (e ∷ entries) entry h =
    ground (arith, h.0, rw_less e.path entry.path, Behind-IsNew entries entry h.1)

add_files-append :
    (added entries : List FileEntry)
    → IsAscending added
    → All (Behind entries) added
    → add_files added entries ≡ some (entries ++ added)
unfolding add_files Behind
add_files-append [] entries a h = ap some (sym (append-nil entries))
add_files-append (e ∷ added) entries a h =
    rw (Behind-IsNew entries e h.0, add_files, add_file-last entries e h.0)
      (add_files-append added (entries ++ e ∷ []) a.1 (Behind-append entries added e h.1 a.0)
        ∙ ap some (append_assoc entries (e ∷ []) added))

Behind-nil : (added : List FileEntry) → All (Behind []) added
unfolding Behind
Behind-nil [] = tt
Behind-nil (e ∷ added) = (tt, Behind-nil added)

-- Entries in the order of their paths are kept as they are.
pub add_files-same : (added : List FileEntry) → IsAscending added → add_files added [] ≡ some added
add_files-same added a = add_files-append added [] a (Behind-nil added)

nothing-IsNew : (added : List FileEntry) → All (IsNew []) added
unfolding by_path
nothing-IsNew [] = tt
nothing-IsNew (e ∷ added) = (refl, nothing-IsNew added)

-- If no two files of a builder have one path, their list is in strict order of the paths, and a
-- look-up by a path finds what it finds among the files that were added.
pub add_files_lem :
    (added : List FileEntry) (path : Bytes)
    → IsDistinct added
    → (files : List FileEntry) × (add_files added [] ≡ some files)
      × IsAscending files
      × (by_path files path ≡ by_path added path)
unfolding by_path
add_files_lem added path d =
    let (files, there, ascending, found) = add_files-new added [] path d (nothing-IsNew added) tt in
    (files, there, ascending, ground (arith, found, last_by_path_lem added path d))
