-- ===== src/Excludes.antt =====
-- extras/libs/excludes/src/excludes.cc and strip.cc: the lines of a source file that its marks keep
-- out of the coverage. The searches for the marks are those of a library for regular expressions, and
-- stand in `Matchers`.
pub mod Steps
pub mod Balanced
pub mod Recovery
pub mod Examples
use git2_cxx.Base.{
  ℕ, zero, suc, ◌+◌, ◌-◌, ◌==◌, ◌%◌, ◌^◌, Bool, true, false, not, ◌&&◌, ◌||◌, List, [], ◌∷◌, ◌++◌,
  Option, none, some, Bytes, leb, if◌then◌else◌,
}
use git2_cxx.Text.{eqb}
use git2_cxx.Text.Parts.{trim, tolower, split}

-- What the searches find in a line: the tags in brackets, whether the mark is there, or where it
-- starts, counted from 1.
pub record Matchers : Type 0 where
  pub matches_tags : Bytes → Option Bytes
  pub matches_line : Bytes → Bool
  pub matches_start : Bytes → Option ℕ
  pub matches_stop : Bytes → Bool
  pub matches_end : Bytes → Option ℕ

pub record ExclBlock : Type 0 where
  pub start : ℕ
  pub end : ℕ

-- The messages on the error output, each with its line and column.
pub data Message : Type 0 where
  stray_end double_start previous_start not_matched : ℕ → ℕ → Message

-- `excludes`. The blocks are kept newest first, the other way round than the vector, and
-- `last_start` is a line and a column.
pub record Excludes : Type 0 where
  pub inside_exclude : Bool
  pub last_start : ℕ × ℕ
  pub single_lines : List ℕ
  pub result : List ExclBlock
  pub empties : List ℕ
  pub messages : List Message

abbrev pub no_excludes : Excludes
no_excludes = record {
  inside_exclude = false;
  last_start = (0, 0);
  single_lines = [];
  result = [];
  empties = [];
  messages = [];
}

unfoldable pub known : List Bytes → Bytes → Bool
known [] key = false
known (marker ∷ markers) key = eqb marker key || known markers key

unfoldable pub has_any : List Bytes → List Bytes → Bool
unfolding known trim tolower
has_any valid_markers [] = false
has_any valid_markers (marker ∷ markers) =
    known valid_markers (tolower (trim marker)) || has_any valid_markers markers

unfoldable pub has_any_marker : List Bytes → Bytes → Bool
unfolding has_any split
has_any_marker valid_markers markers = has_any valid_markers (split markers 44)

-- What `on_line` makes of a text, by its tests in their order: `ignored` has tags for others only.
pub data Mark : Type 0 where
  blank ignored stop_mark line_mark plain : Mark
  end_mark start_mark : ℕ → Mark

unfoldable pub tags_allow : Matchers → List Bytes → Bytes → Bool
tags_allow m valid_markers text = elim (m.matches_tags text) [
  | none ↦ true
  | some tags ↦ has_any_marker valid_markers tags
]

unfoldable pub mark_of : Matchers → List Bytes → Bytes → Mark
mark_of m valid_markers text = elim (trim text) [
  | [] ↦ blank
  | _ ∷ _ ↦
      if not (tags_allow m valid_markers text)
      then ignored
      else if m.matches_stop text
      then stop_mark
      else elim (m.matches_end text) [
        | some column ↦ end_mark column
        | none ↦ elim (m.matches_start text) [
          | some column ↦ start_mark column
          | none ↦ if m.matches_line text then line_mark else plain
        ]
      ]
]

unfoldable pub push_block : Excludes → ℕ → Excludes
push_block s line = record s {
  result = record { start = line; end = line } ∷ s.result;
  single_lines = [];
}

unfoldable pub exclude : Excludes → ℕ → Excludes
unfolding push_block
exclude s line = elim s.result [
  | [] ↦ push_block s line
  | block ∷ blocks ↦
      if (block.end + 1) % 2 ^ 32 == line
      then record s { result = record { start = block.start; end = line } ∷ blocks }
      else push_block s line
]

unfoldable pub drop_from : List ExclBlock → ℕ → List ExclBlock
drop_from [] line = []
drop_from (block ∷ blocks) line =
    if leb line block.start then drop_from blocks line else block ∷ blocks

-- The loop over `single_lines`, which `exclude` may clear: to read an element after that is
-- undefined, and `none` here.
unfoldable pub exclude_each : List ℕ → Excludes → Option Excludes
unfolding exclude
exclude_each [] s = some s
exclude_each (line ∷ lines) s =
    let rest = exclude_each lines (exclude s line) in
    elim s.single_lines [ [] ↦ none | _ ∷ _ ↦ rest ]

unfoldable pub include_back : Excludes → ℕ → Option Excludes
unfolding drop_from exclude_each
include_back s line = exclude_each s.single_lines (record s { result = drop_from s.result line })

abbrev pub say : Excludes → Message → Excludes
say s message = record s { messages = s.messages ++ message ∷ [] }

-- The start branch of `on_line`, up to the call of `exclude`.
unfoldable pub on_start : Excludes → ℕ → ℕ → Option Excludes
unfolding include_back
on_start s line_no column =
    let at = s.last_start in
    let warned = say (say s (double_start line_no column)) (previous_start at.0 at.1) in
    let back = if s.inside_exclude then include_back warned at.0 else some s in
    elim back [
      | none ↦ none
      | some t ↦ some (record t { last_start = (line_no, column); inside_exclude = true })
    ]

abbrev pub exclude_inside : Excludes → ℕ → Excludes
exclude_inside s line_no = if s.inside_exclude then exclude s line_no else s

unfoldable pub on_mark : Excludes → ℕ → Mark → Option Excludes
unfolding on_start exclude
on_mark s line_no blank = some (record s { empties = s.empties ++ line_no ∷ [] })
on_mark s line_no ignored = some s
on_mark s line_no stop_mark = some (record (exclude_inside s line_no) { inside_exclude = false })
on_mark s line_no (end_mark column) =
    if s.inside_exclude
    then some (exclude_inside (say s (stray_end line_no column)) line_no)
    else some s
on_mark s line_no (start_mark column) = elim (on_start s line_no column) [
  | none ↦ none
  | some t ↦ some (exclude_inside t line_no)
]
on_mark s line_no line_mark =
    some (exclude (record s { single_lines = s.single_lines ++ line_no ∷ [] }) line_no)
on_mark s line_no plain = some (exclude_inside s line_no)

unfoldable pub on_line : Matchers → List Bytes → Excludes → ℕ → Bytes → Option Excludes
on_line m valid_markers s line_no text = on_mark s line_no (mark_of m valid_markers text)

unfoldable pub on_lines : Matchers → List Bytes → List Bytes → ℕ → Excludes → Option Excludes
on_lines m valid_markers [] line_no s = some s
on_lines m valid_markers (text ∷ texts) line_no s = elim (on_line m valid_markers s line_no text) [
  | none ↦ none
  | some t ↦ on_lines m valid_markers texts ((line_no + 1) % 2 ^ 32) t
]

unfoldable pub after_lines : Excludes → Option Excludes
unfolding include_back
after_lines s =
    let at = s.last_start in
    if s.inside_exclude then include_back (say s (not_matched at.0 at.1)) at.0 else some s

abbrev pub backwards : List ExclBlock → List ExclBlock → List ExclBlock
backwards [] done = done
backwards (block ∷ blocks) done = backwards blocks (block ∷ done)

unfoldable pub find_blocks : Matchers → List Bytes → Bytes → Option (List ExclBlock × List ℕ)
find_blocks m valid_markers text = elim (on_lines m valid_markers (split text 10) 1 no_excludes) [
  | none ↦ none
  | some s ↦ elim (after_lines s) [ none ↦ none | some t ↦ some (backwards t.result [], t.empties) ]
]

unfoldable pub is_line_excluded : List ExclBlock → ℕ → Bool
is_line_excluded [] line_no = false
is_line_excluded (block ∷ blocks) line_no =
    if leb block.start line_no && leb line_no block.end
    then true
    else is_line_excluded blocks line_no
