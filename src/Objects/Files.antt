-- ===== src/Objects/Files.antt =====
-- libs/cov-api/src/cov/io/files.cc: `load` and `store` of a list of files, and its builder.
pub mod Sorted
pub mod Entries
pub mod Stored
use git2_cxx.Base.{
  ℕ, zero, suc, ◌+◌, ◌-◌, ◌*◌, ◌/◌, ◌%◌, ◌^◌, ◌==◌, ◌<◌, ◌≤◌, min, max, Bool, true, false, not,
  ◌&&◌, ◌||◌, List, [], ◌∷◌, ◌++◌, Option, none, some, Bytes, ltb, leb, if◌then◌else◌, codes,
  length, ◌≡◌, ◌≢◌, refl, ap, sym, ◌∙◌, arith, All, Bool-cases, Option-cases, inl, inr, ◌⊎◌, ◌↔◌,
  length-append, length-replicate, append_assoc, append-nil, drop, take, replicate, get_or,
  get_elem?, map, tests, drop-append, take-append, All-append,
}
use git2_cxx.Text.{eqb, less}
use git2_cxx.Stats.{Stats, CoverageStats, init}
use git2_cxx.Strings.{
  is_valid, build, Block, ArrayRef, StringsBlock, after, align_array, header_valid,
}
use git2_cxx.Strings.Locate.{insert_all}
use git2_cxx.Streams.{
  Outcome, done, refused, fault, M, and_then, ◌>>=◌, ◌>>◌, pure, guard, read, skip, word,
  store_word, store_bytes, in_buffer, load_items, store_items, place_all,
}
use git2_cxx.Objects.{
  GitOid, load_id, load_block, store_block, load_array_ref, store_array_ref, load_stats,
  store_stats, view, locate32,
}

-- `files::entry`.
pub record FileEntry : Type 0 where
  pub path : Bytes
  pub stats : CoverageStats
  pub contents : GitOid
  pub line_coverage : GitOid
  pub function_coverage : GitOid
  pub branch_coverage : GitOid

abbrev pub zero_id : GitOid
zero_id = replicate 20 0

-- `report_entry_stats`, `files::basic` and, with two more of the former, `files::ext`.
pub record EntryStats : Type 0 where
  pub summary : Stats
  pub details : GitOid

pub record WireBasic : Type 0 where
  pub path : ℕ
  pub contents : GitOid
  pub lines_total : ℕ
  pub lines : EntryStats

pub record WireExt : Type 0 where
  pub basic : WireBasic
  pub functions : EntryStats
  pub branches : EntryStats

unfoldable pub load_entry_stats : M EntryStats
load_entry_stats = do
  summary ← load_stats
  details ← load_id
  pure (record { summary = summary; details = details })

unfoldable pub store_entry_stats : EntryStats → Bytes → Bytes
store_entry_stats s rest = store_stats s.summary (store_bytes s.details rest)

unfoldable pub load_basic : M WireBasic
load_basic = do
  path ← word
  contents ← load_id
  lines_total ← word
  lines ← load_entry_stats
  pure (record { path = path; contents = contents; lines_total = lines_total; lines = lines })

unfoldable pub store_basic : WireBasic → Bytes → Bytes
store_basic w rest =
    store_word w.path
      (store_bytes w.contents (store_word w.lines_total (store_entry_stats w.lines rest)))

unfoldable pub load_ext : M WireExt
load_ext = do
  basic ← load_basic
  functions ← load_entry_stats
  branches ← load_entry_stats
  pure (record { basic = basic; functions = functions; branches = branches })

unfoldable pub store_ext : WireExt → Bytes → Bytes
store_ext w rest =
    store_basic w.basic (store_entry_stats w.functions (store_entry_stats w.branches rest))

-- `builder::add`: the map from paths to entries is the list of its entries in the order of their
-- paths, and an entry takes the place of one with its path.
unfoldable pub add_file : List FileEntry → FileEntry → List FileEntry
add_file [] entry = entry ∷ []
add_file (e ∷ entries) entry =
    let rest = add_file entries entry in
    if less e.path entry.path
    then e ∷ rest
    else if eqb e.path entry.path
    then entry ∷ entries
    else entry ∷ (e ∷ entries)

-- `builder::remove`.
unfoldable pub remove_file : List FileEntry → Bytes → List FileEntry × Bool
remove_file [] path = ([], false)
remove_file (e ∷ entries) path =
    let rest = remove_file entries path in
    if eqb e.path path then (entries, true) else (e ∷ rest.0, rest.1)

-- `files::by_path`.
unfoldable pub by_path : List FileEntry → Bytes → Option FileEntry
by_path [] path = none
by_path (e ∷ entries) path = if eqb e.path path then some e else by_path entries path

-- The keys of the map are views of the paths of its entries. The entry that is replaced takes the key
-- of its place with it, and a further `add` compares its path with that: `none`.
unfoldable pub close : List FileEntry → List FileEntry → Option (List FileEntry)
close [] entries = some entries
close (e ∷ added) entries = none

unfoldable pub add_files : List FileEntry → List FileEntry → Option (List FileEntry)
unfolding close
add_files [] entries = some entries
add_files (entry ∷ added) entries =
    let rest = add_files added (add_file entries entry) in
    elim (by_path entries entry.path) [
      | none ↦ rest
      | some e ↦ close added (add_file entries entry)
    ]

unfoldable pub basic_entry : Bytes → WireBasic → FileEntry
basic_entry path w = record {
  path = path;
  stats = record {
    lines_total = w.lines_total;
    lines = w.lines.summary;
    functions = init;
    branches = init;
  };
  contents = w.contents;
  line_coverage = w.lines.details;
  function_coverage = zero_id;
  branch_coverage = zero_id;
}

unfoldable pub ext_entry : Bytes → WireExt → FileEntry
ext_entry path w = record {
  path = path;
  stats = record {
    lines_total = w.basic.lines_total;
    lines = w.basic.lines.summary;
    functions = w.functions.summary;
    branches = w.branches.summary;
  };
  contents = w.basic.contents;
  line_coverage = w.basic.lines.details;
  function_coverage = w.functions.details;
  branch_coverage = w.branches.details;
}

-- The body of the loop of `load`: an entry is short or long by the size of all of them.
unfoldable pub load_file : ℕ → Bytes → M FileEntry
load_file entry_size strings = do
  buffer ← read entry_size
  basic ← in_buffer load_basic buffer
  guard (is_valid strings basic.path)
  path ← view strings basic.path
  if ltb entry_size 112
      then pure (basic_entry path basic)
      else in_buffer load_ext buffer >>= λ ext. pure (ext_entry path ext)

abbrev pub released : Option (List FileEntry) → M (List FileEntry)
released o s = elim o [ none ↦ fault | some files ↦ done files s ]

unfoldable pub load_files : M (List FileEntry)
load_files = do
  strings ← load_block
  entries ← load_array_ref
  guard (header_valid 20 56 strings entries)
  skip (strings.offset * 4 - 20)
  block ← read (strings.size * 4)
  skip ((entries.offset - (strings.offset + strings.size) % 2 ^ 32) * 4)
  loaded ← load_items entries.count (load_file (entries.size * 4) block)
  released (add_files loaded [])

unfoldable pub only_lines : List FileEntry → Bool
only_lines [] = true
only_lines (e ∷ entries) =
    if not (eqb e.function_coverage zero_id) || not (eqb e.branch_coverage zero_id)
    then false
    else only_lines entries

unfoldable pub paths_of : List FileEntry → List Bytes
paths_of [] = []
paths_of (e ∷ entries) = e.path ∷ paths_of entries

unfoldable pub get_basic : FileEntry → ℕ → WireBasic
get_basic e path = record {
  path = path;
  contents = e.contents;
  lines_total = e.stats.lines_total;
  lines = record { summary = e.stats.lines; details = e.line_coverage };
}

unfoldable pub get_ext : FileEntry → ℕ → WireExt
get_ext e path = record {
  basic = get_basic e path;
  functions = record { summary = e.stats.functions; details = e.function_coverage };
  branches = record { summary = e.stats.branches; details = e.branch_coverage };
}

-- `path32`: a path that is not in the block is refused.
unfoldable pub place_file : {W : Type 0} → (FileEntry → ℕ → W) → StringsBlock → FileEntry → Option W
place_file get stg e = elim (locate32 stg e.path) [
  | none ↦ none
  | some path ↦ if ltb (length stg.bytes) path then none else some (get e path)
]

unfoldable pub store_entries :
    {W : Type 0}
    → ℕ
    → (FileEntry → ℕ → W)
    → (W → Bytes → Bytes)
    → StringsBlock
    → List FileEntry
    → Option Bytes
store_entries entry_size get put stg entries = elim (place_all (place_file get stg) entries) [
  | none ↦ none
  | some wires ↦ some (
      store_block (after 20 stg.bytes) (
        store_array_ref (align_array 20 entry_size stg.bytes (length entries))
          (store_bytes stg.bytes (store_items put wires []))))
]

unfoldable pub store_files : List FileEntry → Option Bytes
store_files entries =
    let stg = build (insert_all (paths_of entries) []) in
    if only_lines entries
    then store_entries 56 get_basic store_basic stg entries
    else store_entries 112 get_ext store_ext stg entries
