-- ===== src/Objects/Files/Entries.antt =====
-- The entries of a list of files, long or short, are read back as they were stored.
use git2_cxx.Base.{
  ℕ, ◌^◌, ◌<◌, false, List, [], ◌++◌, some, Bytes, ltb, length, ◌≡◌, refl, arith, All,
  length-append, append_assoc,
}
use git2_cxx.Words.{IsU32}
use git2_cxx.Stats.{init}
use git2_cxx.Strings.{build}
use git2_cxx.Strings.Layout.{LacksNul}
use git2_cxx.Strings.Sorted.{In}
use git2_cxx.Strings.Locate.{insert_all}
use git2_cxx.Streams.{done, store_word, store_bytes}
use git2_cxx.Streams.Laws.{step, word-store_word, in_buffer-store, read-put, guard-true}
use git2_cxx.Objects.{store_stats}
use git2_cxx.Objects.Codecs.{
  IsId, IsCoverageStats, IsStats, load_id-store_bytes, load_stats-store_stats, IsPlace,
  locate32_found, view_place, is_valid-lt,
}
use git2_cxx.Objects.Files.{
  FileEntry, zero_id, EntryStats, WireBasic, WireExt, load_entry_stats, store_entry_stats,
  load_basic, store_basic, load_ext, store_ext, basic_entry, ext_entry, load_file, get_basic,
  get_ext, place_file,
}

-- A path without a NUL, and values that fit their fields.
pub record IsFile (e : FileEntry) : Type 0 where
  pub no_nul : LacksNul e.path
  pub counters : IsCoverageStats e.stats
  pub ids :
      IsId e.contents × IsId e.line_coverage × IsId e.function_coverage × IsId e.branch_coverage

load_entry_stats-store_entry_stats :
    (s : EntryStats)
    → IsStats s.summary
    → IsId s.details
    → (rest : Bytes) → load_entry_stats (store_entry_stats s rest) ≡ done s rest
unfolding load_entry_stats store_entry_stats
load_entry_stats-store_entry_stats s h k rest =
    step _ (load_stats-store_stats s.summary h _) (step _ (load_id-store_bytes s.details k _) refl)

load_basic-get_basic :
    (e : FileEntry) (path : ℕ)
    → IsFile e
    → IsU32 path
    → (rest : Bytes)
    → load_basic (store_basic (get_basic e path) rest) ≡ done (get_basic e path) rest
unfolding load_basic store_basic get_basic
load_basic-get_basic e path h p rest =
    let lines : EntryStats = record { summary = e.stats.lines; details = e.line_coverage } in
    step _ (word-store_word path p _) (
      step _ (load_id-store_bytes e.contents h.ids.0 _) (
        step _ (word-store_word e.stats.lines_total h.counters.0 _)
          (step _ (load_entry_stats-store_entry_stats lines h.counters.1 h.ids.1 _) refl)))

load_ext-get_ext :
    (e : FileEntry) (path : ℕ)
    → IsFile e
    → IsU32 path
    → (rest : Bytes) → load_ext (store_ext (get_ext e path) rest) ≡ done (get_ext e path) rest
unfolding load_ext store_ext get_ext
load_ext-get_ext e path h p rest =
    let functions : EntryStats = record {
      summary = e.stats.functions;
      details = e.function_coverage;
    } in
    let branches : EntryStats = record {
      summary = e.stats.branches;
      details = e.branch_coverage;
    } in
    step _ (load_basic-get_basic e path h p _) (
      step _ (load_entry_stats-store_entry_stats functions h.counters.2 h.ids.2 _)
        (step _ (load_entry_stats-store_entry_stats branches h.counters.3 h.ids.3 _) refl))

store_basic-split : (w : WireBasic) (rest : Bytes) → store_basic w rest ≡ store_basic w [] ++ rest
unfolding store_basic store_entry_stats store_stats store_bytes store_word
store_basic-split w rest = simp append_assoc

store_ext-split : (w : WireExt) (rest : Bytes) → store_ext w rest ≡ store_ext w [] ++ rest
unfolding store_ext store_basic store_entry_stats store_stats store_bytes store_word
store_ext-split w rest = simp append_assoc

length-store_basic :
    (e : FileEntry) (path : ℕ) → IsFile e → length (store_basic (get_basic e path) []) ≡ 56
unfolding store_basic get_basic store_entry_stats store_stats store_bytes store_word
length-store_basic e path h = simp length-append (omega (arith, h.ids))

length-store_ext :
    (e : FileEntry) (path : ℕ) → IsFile e → length (store_ext (get_ext e path) []) ≡ 112
unfolding store_ext get_ext store_basic get_basic store_entry_stats store_stats store_bytes
    store_word
length-store_ext e path h = simp length-append (omega (arith, h.ids))

-- What is kept of an entry in a list with lines only.
unfoldable pub without_functions : FileEntry → FileEntry
without_functions e = record {
  path = e.path;
  stats = record e.stats { functions = init; branches = init };
  contents = e.contents;
  line_coverage = e.line_coverage;
  function_coverage = zero_id;
  branch_coverage = zero_id;
}

-- The basic part of what is stored for an entry is read alone from a longer buffer.
load_basic-get_ext :
    (e : FileEntry) (path : ℕ)
    → IsFile e
    → IsU32 path
    → (behind : Bytes) × (load_basic (store_ext (get_ext e path) [])
        ≡ done (get_basic e path) behind)
unfolding store_ext get_ext
load_basic-get_ext e path h p = (_, load_basic-get_basic e path h p _)

module _ (names : List Bytes) (l : All LacksNul names)
    (small : length (build (insert_all names [])).bytes < 2 ^ 32) where
  IsPlace-found :
      {W : Type 0} (get : FileEntry → ℕ → W) (e : FileEntry)
      → In e.path names
      → let stg = build (insert_all names []) in
        (path : ℕ) × (place_file get stg e ≡ some (get e path)) × IsPlace stg.bytes e.path path
  unfolding place_file
  IsPlace-found get e i =
      let stg = build (insert_all names []) in
      let (path, found, place) = locate32_found names l small e.path i in
      let below : ltb (length stg.bytes) path ≡ false =
        ground (arith, is_valid-lt stg.bytes path place.1) in
      (path, rw (found, below, place_file) refl, place)

  pub basic_back :
      (e : FileEntry)
      → IsFile e × In e.path names
      → let stg = build (insert_all names []) in
        (w : WireBasic) × (place_file get_basic stg e ≡ some w)
        × ((rest : Bytes)
            → load_file 56 stg.bytes (store_basic w rest) ≡ done (without_functions e) rest)
  unfolding load_file basic_entry get_basic without_functions
  basic_back e (h, i) =
      let stg = build (insert_all names []) in
      let (path, found, place) = IsPlace-found get_basic e i in
      let w = get_basic e path in
      (
        w,
        found,
        λ rest.
            step _
              (read-put (store_basic w) 56 (store_basic-split w) (length-store_basic e path h) rest)
              (step _
                (in_buffer-store load_basic (store_basic w []) [] w
                  (load_basic-get_basic e path h place.0 []) rest)
                (step _ (guard-true _ place.1 rest)
                  (step _ (view_place stg.bytes e.path path place.2 rest) refl))),
      )

  pub ext_back :
      (e : FileEntry)
      → IsFile e × In e.path names
      → let stg = build (insert_all names []) in
        (w : WireExt) × (place_file get_ext stg e ≡ some w)
        × ((rest : Bytes) → load_file 112 stg.bytes (store_ext w rest) ≡ done e rest)
  unfolding load_file ext_entry get_ext get_basic
  ext_back e (h, i) =
      let stg = build (insert_all names []) in
      let (path, found, place) = IsPlace-found get_ext e i in
      let w = get_ext e path in
      let (behind, basic) = load_basic-get_ext e path h place.0 in
      (
        w,
        found,
        λ rest.
            step _ (read-put (store_ext w) 112 (store_ext-split w) (length-store_ext e path h) rest)
              (step _
                (in_buffer-store load_basic (store_ext w []) behind (get_basic e path) basic rest)
                (step _ (guard-true _ place.1 rest) (
                  step _ (view_place stg.bytes e.path path place.2 rest) (
                    step _
                      (in_buffer-store load_ext (store_ext w []) [] w
                        (load_ext-get_ext e path h place.0 []) rest)
                      refl)))),
      )
