-- ===== src/Objects/Files/Stored.antt =====
-- `files::load` of what `files::store` has stored.
use mathlib.Core.List.{foldr}
use git2_cxx.Text.{eqb}
use git2_cxx.Base.{
  Bool, ◌&&◌, ℕ, ◌+◌, ◌*◌, ◌%◌, ◌^◌, ◌<◌, ◌≤◌, true, List, [], ◌∷◌, some, Bytes, if◌then◌else◌,
  length, ◌≡◌, refl, ap, sym, ◌∙◌, arith, All, Bool-cases, inl, inr, map,
}
use git2_cxx.Strings.{build, Block, ArrayRef, after, align_array, header_valid}
use git2_cxx.Strings.Layout.{LacksNul, length-build}
use git2_cxx.Strings.Sorted.{In}
use git2_cxx.Strings.Locate.{insert_all}
use git2_cxx.Streams.{done, store_bytes, load_items, store_items, place_all}
use git2_cxx.Streams.Laws.{
  step, read-store_bytes, skip-none, load_items-place_all, map-id, guard-true,
}
use git2_cxx.Objects.{store_block, store_array_ref}
use git2_cxx.Objects.Codecs.{
  load_block-store_block, load_array_ref-store_array_ref, after-IsLaidOut,
}
use git2_cxx.Objects.Files.{
  zero_id, FileEntry, store_basic, store_ext, add_files, released, load_file, load_files,
  only_lines, paths_of, get_basic, get_ext, place_file, store_entries, store_files,
}
use git2_cxx.Objects.Files.Sorted.{Below, IsAscending, add_files-same}
use git2_cxx.Objects.Files.Entries.{IsFile, without_functions, basic_back, ext_back}

files_LacksNul : (entries : List FileEntry) → All IsFile entries → All LacksNul (paths_of entries)
unfolding paths_of
files_LacksNul [] h = tt
files_LacksNul (e ∷ entries) h = (h.0.no_nul, files_LacksNul entries h.1)

files_In :
    (entries : List FileEntry) (names : List Bytes)
    → All IsFile entries
    → ((y : Bytes) → In y (paths_of entries) → In y names)
    → All (λ e. IsFile e × In e.path names) entries
unfolding paths_of
files_In [] names h into = tt
files_In (e ∷ entries) names h into =
    ((h.0, into e.path (inl refl)), files_In entries names h.1 (λ y i. into y (inr i)))

-- A list whose entries are of `size` bytes, which is enough for the short ones.
section_valid :
    (size : ℕ) (strings : Block) (entries : ArrayRef)
    → 56 ≤ size
    → header_valid 20 size strings entries ≡ true
    → header_valid 20 56 strings entries ≡ true
unfolding header_valid
section_valid size strings entries h k = ground arith

store_entries_lem :
    {W : Type 0} (size : ℕ) (get : FileEntry → ℕ → W) (put : W → Bytes → Bytes)
    (kept : FileEntry → FileEntry) (entries : List FileEntry)
    → 56 ≤ size
    → size % 4 ≡ 0
    → size < 2 ^ 32
    → length entries < 2 ^ 32
    → let stg = build (insert_all (paths_of entries) []) in
      length stg.bytes + 20 < 2 ^ 32
      → ((ws : List W) × (place_all (place_file get stg) entries ≡ some ws)
          × ((rest : Bytes)
              → load_items (length entries) (load_file size stg.bytes) (store_items put ws rest)
                ≡ done (map kept entries) rest))
      → (bytes : Bytes) × (store_entries size get put stg entries ≡ some bytes)
        × (load_files bytes ≡ released (add_files (map kept entries) []) [])
unfolding store_entries load_files
store_entries_lem size get put kept entries short aligned fits few small (wires, placed, back) =
    let names = paths_of entries in
    let stg = build (insert_all names []) in
    let laid =
      after-IsLaidOut 20 size (length entries) stg.bytes refl aligned
        (length-build (insert_all names [])) (omega arith) fits (omega arith) in
    let strings = after 20 stg.bytes in
    let array = align_array 20 size stg.bytes (length entries) in
    let tail = store_items put wires [] in
    (
      store_block strings (store_array_ref array (store_bytes stg.bytes tail)),
      rw (placed, store_entries) refl,
      step _ (load_block-store_block strings laid.words.0 laid.words.1 _) (
          step _ (load_array_ref-store_array_ref array laid.words.2 laid.words.3 laid.words.4 _) (
            step _ (guard-true _ (section_valid size strings array short laid.valid) _) (
              rw laid.no_gap (
                step _ (skip-none _) (
                  step _ (read-store_bytes (strings.size * 4) stg.bytes (sym laid.block_size) tail)
                    (rw laid.no_gap_behind (
                      step _ (skip-none _)
                        (rw (laid.entry_count, laid.entry_size) (step _ (back []) refl))))))))),
    )

without_functions-All :
    (e : FileEntry) (entries : List FileEntry)
    → All (Below e) entries
    → All (Below (without_functions e)) (map without_functions entries)
unfolding without_functions
without_functions-All e [] h = tt
without_functions-All e (f ∷ entries) h = (h.0, without_functions-All e entries h.1)

without_functions-IsAscending :
    (entries : List FileEntry) → IsAscending entries → IsAscending (map without_functions entries)
without_functions-IsAscending [] a = tt
without_functions-IsAscending (e ∷ entries) a =
    (without_functions-All e entries a.0, without_functions-IsAscending entries a.1)

-- A file has no object with the coverage of its functions, and none with that of its branches.
unfoldable pub lacks_details : FileEntry → Bool
lacks_details e = eqb e.function_coverage zero_id && eqb e.branch_coverage zero_id

unfoldable pub all_lack_details : List FileEntry → Bool
unfolding lacks_details
all_lack_details entries = foldr (λ e rest. lacks_details e && rest) true entries

-- What is read back of a list of files: if no file of the list has details of functions or branches,
-- the counters of these are zero, and otherwise every file is as it was.
unfoldable pub kept_files : List FileEntry → List FileEntry
unfolding all_lack_details
kept_files entries = if all_lack_details entries then map without_functions entries else entries

only_lines-all_lack_details :
    (entries : List FileEntry) → only_lines entries ≡ all_lack_details entries
unfolding only_lines all_lack_details lacks_details
only_lines-all_lack_details [] = refl
only_lines-all_lack_details (e ∷ entries) = ground (arith, only_lines-all_lack_details entries)

kept_files-only_lines :
    (entries : List FileEntry)
    → kept_files entries ≡ (if only_lines entries then map without_functions entries else entries)
unfolding kept_files
kept_files-only_lines entries = rw (only_lines-all_lack_details entries) refl

-- Files in the order of their paths are read back as they were stored, but for the counters of
-- functions and branches where no file has details of either.
pub load_files-store_files :
    (entries : List FileEntry)
    → All IsFile entries
    → IsAscending entries
    → length entries < 2 ^ 32
    → length (build (insert_all (paths_of entries) [])).bytes + 20 < 2 ^ 32
    → (bytes : Bytes) × (store_files entries ≡ some bytes)
      × (load_files bytes ≡ done (kept_files entries) [])
unfolding store_files
load_files-store_files entries h a few small =
    let names = paths_of entries in
    let stg = build (insert_all names []) in
    let nul_free = files_LacksNul entries h in
    let named = files_In entries names h (λ y i. i) in
    let short =
      store_entries_lem 56 get_basic store_basic without_functions entries (omega arith) refl
        (omega arith) few small
        (load_items-place_all (place_file get_basic stg) store_basic (load_file 56 stg.bytes)
          without_functions (λ e. IsFile e × In e.path names)
          (basic_back names nul_free (omega arith)) entries named) in
    let long =
      store_entries_lem 112 get_ext store_ext (λ e. e) entries (omega arith) refl (omega arith) few
        small
        (load_items-place_all (place_file get_ext stg) store_ext (load_file 112 stg.bytes) (λ e. e)
          (λ e. IsFile e × In e.path names) (ext_back names nul_free (omega arith)) entries
          named) in
    elim (Bool-cases (only_lines entries)) [
      | inl e ↦
          rw (kept_files-only_lines entries, e)
            (
              short.0,
              short.1,
              short.2
                  ∙ ap (λ o. released o [])
                      (add_files-same (map without_functions entries)
                        (without_functions-IsAscending entries a)),
            )
      | inr e ↦
          rw (kept_files-only_lines entries, e)
            (
              long.0,
              long.1,
              long.2
                  ∙ ap (λ es. released (add_files es []) []) (map-id entries)
                  ∙ ap (λ o. released o []) (add_files-same entries a),
            )
    ]
