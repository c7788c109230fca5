-- ===== src/Objects/Codecs.antt =====
-- The shared structures of object files are read back as they were stored, and so are strings.
use git2_cxx.Base.{
  ℕ, ◌+◌, ◌-◌, ◌*◌, ◌%◌, ◌^◌, ◌<◌, true, List, [], some, Bytes, length, ◌≡◌, refl, arith, All,
}
use git2_cxx.Base.Int.{ℤ}
use git2_cxx.Words.{IsU32, Timestamp, of_seconds, clip_u32}
use git2_cxx.Stats.{Stats, CoverageStats}
use git2_cxx.Strings.{at, is_valid, Block, ArrayRef, build, after, align_array, header_valid}
use git2_cxx.Strings.Layout.{LacksNul}
use git2_cxx.Strings.Sorted.{In}
use git2_cxx.Strings.Locate.{insert_all, locate_or-build}
use git2_cxx.Streams.{done, store_bytes}
use git2_cxx.Streams.Laws.{step, word-store_word, read-store_bytes}
use git2_cxx.Objects.{
  GitOid, load_id, load_stats, store_stats, load_coverage_stats, store_coverage_stats, load_block,
  store_block, load_array_ref, store_array_ref, load_timestamp, store_timestamp, view, locate32,
}

abbrev pub IsId : GitOid → Type 0
IsId id = length id ≡ 20

abbrev pub IsStats : Stats → Type 0
IsStats s = IsU32 s.relevant × IsU32 s.visited

abbrev pub IsCoverageStats : CoverageStats → Type 0
IsCoverageStats s = IsU32 s.lines_total × IsStats s.lines × IsStats s.functions × IsStats s.branches

pub load_id-store_bytes :
    (id : GitOid) → IsId id → (rest : Bytes) → load_id (store_bytes id rest) ≡ done id rest
unfolding load_id
load_id-store_bytes id h rest = read-store_bytes 20 id h rest

pub load_stats-store_stats :
    (s : Stats) → IsStats s → (rest : Bytes) → load_stats (store_stats s rest) ≡ done s rest
unfolding load_stats store_stats
load_stats-store_stats s h rest =
    step _ (word-store_word s.relevant h.0 _) (step _ (word-store_word s.visited h.1 _) refl)

pub load_coverage_stats-store_coverage_stats :
    (s : CoverageStats)
    → IsCoverageStats s
    → (rest : Bytes) → load_coverage_stats (store_coverage_stats s rest) ≡ done s rest
unfolding load_coverage_stats store_coverage_stats
load_coverage_stats-store_coverage_stats s h rest = step _ (word-store_word s.lines_total h.0 _) (
    step _ (load_stats-store_stats s.lines h.1 _) (
      step _ (load_stats-store_stats s.functions h.2 _)
        (step _ (load_stats-store_stats s.branches h.3 _) refl)))

pub load_block-store_block :
    (b : Block)
    → IsU32 b.offset
    → IsU32 b.size
    → (rest : Bytes) → load_block (store_block b rest) ≡ done b rest
unfolding load_block store_block
load_block-store_block b h k rest =
    step _ (word-store_word b.offset h _) (step _ (word-store_word b.size k _) refl)

pub load_array_ref-store_array_ref :
    (a : ArrayRef)
    → IsU32 a.offset
    → IsU32 a.size
    → IsU32 a.count
    → (rest : Bytes) → load_array_ref (store_array_ref a rest) ≡ done a rest
unfolding load_array_ref store_array_ref
load_array_ref-store_array_ref a h k l rest =
    step _ (word-store_word a.offset h _)
      (step _ (word-store_word a.size k _) (step _ (word-store_word a.count l _) refl))

pub load_timestamp-store_timestamp :
    (t : Timestamp)
    → IsU32 t.hi
    → IsU32 t.lo
    → (rest : Bytes) → load_timestamp (store_timestamp t rest) ≡ done t rest
unfolding load_timestamp store_timestamp
load_timestamp-store_timestamp t h k rest =
    step _ (word-store_word t.hi h _) (step _ (word-store_word t.lo k _) refl)

pub is_valid-lt :
    (block : Bytes) (offset : ℕ) → is_valid block offset ≡ true → offset < length block
unfolding is_valid
is_valid-lt block offset h = ground arith

-- A string of the set has a place in the block: the offset that is stored for it, at which it is read
-- back.
abbrev pub IsPlace : Bytes → Bytes → ℕ → Type 0
IsPlace block text offset =
    IsU32 offset × (is_valid block offset ≡ true) × (at block offset ≡ some text)

module _ (xs : List Bytes) (l : All LacksNul xs)
    (small : length (build (insert_all xs [])).bytes < 2 ^ 32) where
  pub locate32_found :
      (x : Bytes)
      → In x xs
      → let b = build (insert_all xs []) in
        (offset : ℕ) × (locate32 b x ≡ some offset) × IsPlace b.bytes x offset
  unfolding locate32
  locate32_found x h =
      let b = build (insert_all xs []) in
      let (offset, found, valid, there) = locate_or-build xs l x (length b.bytes + 1) h in
      let below = is_valid-lt b.bytes offset valid in
      (offset, rw (found, locate32) (ground arith), (omega arith, valid, there))

pub view_place :
    (block text : Bytes) (offset : ℕ)
    → at block offset ≡ some text
    → (rest : Bytes) → view block offset rest ≡ done text rest
unfolding view
view_place block text offset h rest = rw (h, view) refl

-- What the header of an object file says of a block of whole words, and of so many entries behind it.
pub record IsLaidOut (header entry count : ℕ) (block : Bytes) (strings : Block) (entries : ArrayRef)
    : Type 0 where
  pub valid : header_valid header entry strings entries ≡ true
  pub behind : strings.offset * 4 ≡ header
  pub no_gap : strings.offset * 4 - header ≡ 0
  pub block_size : strings.size * 4 ≡ length block
  pub no_gap_behind : (entries.offset - (strings.offset + strings.size) % 2 ^ 32) * 4 ≡ 0
  pub entry_size : entries.size * 4 ≡ entry
  pub entry_count : entries.count ≡ count
  pub words :
      IsU32 strings.offset
      × IsU32 strings.size
      × IsU32 entries.offset
      × IsU32 entries.size
      × IsU32 entries.count

pub after-IsLaidOut :
    (header entry count : ℕ) (block : Bytes)
    → header % 4 ≡ 0
    → entry % 4 ≡ 0
    → length block % 4 ≡ 0
    → header + length block < 2 ^ 32
    → entry < 2 ^ 32
    → IsU32 count
    → IsLaidOut header entry count block (after header block) (align_array header entry block count)
unfolding after align_array header_valid clip_u32
after-IsLaidOut header entry count block h e b small e' c = record {
  valid = ground arith;
  behind = omega arith;
  no_gap = omega arith;
  block_size = omega arith;
  no_gap_behind = omega arith;
  entry_size = omega arith;
  entry_count = omega arith;
  words = omega arith;
}

pub of_seconds-IsU32 : (s : ℤ) → IsU32 (of_seconds s).hi × IsU32 (of_seconds s).lo
unfolding of_seconds
of_seconds-IsU32 s = (omega arith, omega arith)
