-- ===== src/Strings.antt =====
-- libs/cov-api/include/cov/io/strings.hh and libs/cov-api/src/cov/io/strings.cc: the block of
-- NUL-terminated strings of an object file, and the set that it is built from. Memory suffices:
-- `reserve_offsets` and `reserve_data` return true.
pub mod Sorted
pub mod Layout
pub mod Locate
pub mod Examples
use mathlib.Core.List.{foldl}
use git2_cxx.Base.{
  ℕ, zero, suc, ◌+◌, ◌-◌, ◌*◌, ◌/◌, ◌%◌, ◌^◌, ◌==◌, Bool, true, false, ◌&&◌, ◌||◌, List, [], ◌∷◌,
  ◌++◌, Option, none, some, Bytes, ltb, leb, if◌then◌else◌, drop, length, get_or, replicate,
}
use git2_cxx.Words.{clip_u32}
use git2_cxx.Text.{eqb, less}

-- A C string: the bytes up to the first NUL. `none` is a read past the end of the block.
unfoldable pub c_string : Bytes → Option Bytes
c_string [] = none
c_string (c ∷ s) =
    if c == 0 then some [] else elim (c_string s) [ none ↦ none | some t ↦ some (c ∷ t) ]

-- `strings_view_base::at` and `is_valid`, over the bytes of the block.
unfoldable pub at : Bytes → ℕ → Option Bytes
unfolding c_string
at block offset = if leb (length block) offset then some [] else c_string (drop offset block)

unfoldable pub is_valid : Bytes → ℕ → Bool
is_valid block offset =
    ltb offset (length block) && (offset == 0 || get_or block (offset - 1) 0 == 0)

pub record StringsBlock : Type 0 where
  pub offsets : List ℕ
  pub bytes : Bytes

abbrev pub empty : StringsBlock
empty = record { offsets = []; bytes = [] }

unfoldable pub append : StringsBlock → Bytes → StringsBlock
append b value = record {
  offsets = b.offsets ++ length b.bytes ∷ [];
  bytes = (b.bytes ++ value) ++ 0 ∷ [];
}

unfoldable pub fill32 : StringsBlock → StringsBlock
fill32 b =
    let extra = length b.bytes % 4 in
    if extra == 0 then b else record b { bytes = b.bytes ++ replicate (4 - extra) 0 }

-- `strings_block::is_valid()`: every string starts at a valid offset.
pub all_valid : Bytes → List ℕ → Bool
all_valid block [] = true
all_valid block (offset ∷ offsets) =
    if is_valid block offset then all_valid block offsets else false

unfoldable pub block_is_valid : StringsBlock → Bool
unfolding all_valid is_valid
block_is_valid b = all_valid b.bytes b.offsets

-- `std::lower_bound`: the first offset whose string is not less; no offset is the end. The outer
-- `none` is a read past the end.
pub lower_bound : Bytes → List ℕ → Bytes → Option (Option ℕ)
lower_bound block [] str = some none
lower_bound block (offset ∷ offsets) str = elim (at block offset) [
  | none ↦ none
  | some s ↦ if less s str then lower_bound block offsets str else some (some offset)
]

found_or : Bytes → Bytes → ℕ → ℕ → Option ℕ
found_or block str value_if_invalid offset = elim (at block offset) [
  | none ↦ none
  | some s ↦ some (if eqb s str then offset else value_if_invalid)
]

unfoldable pub locate_or : StringsBlock → Bytes → ℕ → Option ℕ
unfolding lower_bound found_or
locate_or b str value_if_invalid = elim (lower_bound b.bytes b.offsets str) [
  | none ↦ none
  | some none ↦ some value_if_invalid
  | some (some offset) ↦ found_or b.bytes str value_if_invalid offset
]

unfoldable pub locate : StringsBlock → Bytes → Option ℕ
unfolding locate_or
locate b str = locate_or b str (length b.bytes + 1)

-- `strings_builder::insert`: the set is the list of its strings in order.
unfoldable pub insert : Bytes → List Bytes → List Bytes
insert str [] = str ∷ []
insert str (s ∷ strings) =
    if less s str
    then s ∷ insert str strings
    else if eqb s str
    then s ∷ strings
    else str ∷ s ∷ strings

unfoldable pub build : List Bytes → StringsBlock
unfolding append fill32
build strings = fill32 (foldl append empty strings)

-- `after` and `align_array`: where the block and the array of entries stand, in units of a
-- `uint32_t`, for a header and an entry of so many bytes.
pub record Block : Type 0 where
  pub offset : ℕ
  pub size : ℕ

pub record ArrayRef : Type 0 where
  pub offset : ℕ
  pub size : ℕ
  pub count : ℕ

unfoldable pub after : ℕ → Bytes → Block
after header block = record { offset = header / 4 % 2 ^ 32; size = length block / 4 % 2 ^ 32 }

unfoldable pub align_array : ℕ → ℕ → Bytes → ℕ → ArrayRef
align_array header entry block count = record {
  offset = (length block + header) / 4 % 2 ^ 32;
  size = entry / 4 % 2 ^ 32;
  count = clip_u32 count;
}

-- `header_valid`: the products by 4 are 64 bits wide, the sum is 32.
unfoldable pub header_valid : ℕ → ℕ → Block → ArrayRef → Bool
header_valid header entry strings entries =
    leb header (strings.offset * 4)
    && (leb entry (entries.size * 4)
        && leb ((strings.offset + strings.size) % 2 ^ 32) entries.offset)
