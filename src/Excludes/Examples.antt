-- ===== src/Excludes/Examples.antt =====
-- Tests of the excluded lines, and the theorems about them at concrete texts. The marks are the first
-- words of the lines.
use git2_cxx.Base.{
  ℕ, true, false, List, [], ◌∷◌, none, some, Bytes, if◌then◌else◌, codes, ◌≡◌, refl, arith, inl,
  inr, drop,
}
use git2_cxx.Text.{eqb, starts_with}
use git2_cxx.Text.Parts.{is_space, trim_front, trim_back, trim, tolower, to_first, split}
use git2_cxx.Excludes.{
  Matchers, ExclBlock, Excludes, known, has_any, has_any_marker, tags_allow, mark_of, push_block,
  exclude, drop_from, exclude_each, include_back, on_start, on_mark, on_line, on_lines, after_lines,
  find_blocks, is_line_excluded,
}
use git2_cxx.Excludes.Balanced.{find_blocks-excluded_at}
use git2_cxx.Excludes.Steps.{balanced, excluded_at}
use git2_cxx.Excludes.Recovery.{
  SplitAt, after_lines-SplitAt, after_lines-older_block, after_lines-destroyed,
}

abbrev words : Matchers
words = record {
  matches_tags = λ s. if starts_with s (codes "LINE ") then some (drop 5 s) else none;
  matches_line = λ s. starts_with s (codes "LINE");
  matches_start = λ s. if starts_with s (codes "START") then some 1 else none;
  matches_stop = λ s. starts_with s (codes "STOP");
  matches_end = λ s. if starts_with s (codes "END") then some 1 else none;
}

abbrev linux : List Bytes
linux = codes "linux" ∷ codes "posix" ∷ []

abbrev balanced_text : Bytes
balanced_text = codes "LINE\na\nSTART\nb\n\nc\nSTOP\nLINE win32\nLINE win32, Posix"

find_blocks-balanced_text :
    find_blocks words linux balanced_text
    ≡ some (
      record { start = 1; end = 1 }
          ∷ record { start = 3; end = 4 }
          ∷ record { start = 6; end = 7 }
          ∷ record { start = 9; end = 9 }
          ∷ [],
      5 ∷ [],
    )
unfolding find_blocks on_lines on_line on_mark on_start mark_of tags_allow has_any_marker has_any
    known trim trim_front trim_back is_space tolower split to_first exclude push_block after_lines
    starts_with eqb
find_blocks-balanced_text = refl

-- The region of line 3 has no stop, and goes on the block of line 2: it stays excluded.
find_blocks-older_block :
    find_blocks words linux (codes "a\nLINE\nSTART\nb\nc")
    ≡ some (record { start = 2; end = 5 } ∷ [], [])
unfolding find_blocks on_lines on_line on_mark on_start mark_of tags_allow has_any_marker has_any
    known trim trim_front trim_back is_space tolower split to_first exclude push_block after_lines
    include_back drop_from exclude_each starts_with eqb
find_blocks-older_block = refl

-- Two marked lines in a region that has no stop.
find_blocks-destroyed : find_blocks words linux (codes "START\na\nLINE\nb\nLINE\nc") ≡ none
unfolding find_blocks on_lines on_line on_mark on_start mark_of tags_allow has_any_marker has_any
    known trim trim_front trim_back is_space tolower split to_first exclude push_block after_lines
    include_back drop_from exclude_each starts_with eqb
find_blocks-destroyed = refl

find_blocks-excluded_at_example :
    (blocks : List ExclBlock) × (empties : List ℕ) × (find_blocks words linux balanced_text
      ≡ some (blocks, empties))
    × (is_line_excluded blocks 4 ≡ true)
unfolding split to_first balanced excluded_at mark_of tags_allow has_any_marker has_any known trim
    trim_front trim_back is_space tolower starts_with eqb
find_blocks-excluded_at_example =
    find_blocks-excluded_at words linux balanced_text 4 (omega arith) refl

-- A file whose region starts in line 7 and goes on to line 9.
abbrev open_region : List ExclBlock → List ℕ → Excludes
open_region result single_lines = record {
  inside_exclude = true;
  last_start = (7, 4);
  single_lines = single_lines;
  result = result;
  empties = [];
  messages = [];
}

abbrev apart : List ExclBlock
apart = record { start = 7; end = 9 } ∷ record { start = 2; end = 3 } ∷ []

abbrev joined : List ExclBlock
joined = record { start = 6; end = 9 } ∷ []

after_lines-SplitAt_example :
    (t : Excludes) × (after_lines (open_region apart []) ≡ some t)
    × (is_line_excluded t.result 8 ≡ false)
unfolding SplitAt
after_lines-SplitAt_example =
    after_lines-SplitAt (open_region apart []) 8 refl refl (inl (omega arith, inr (ground arith)))

after_lines-older_block_test :
    (t : Excludes) × (after_lines (open_region joined []) ≡ some t) × (t.result ≡ joined)
after_lines-older_block_test =
    after_lines-older_block (open_region joined []) (record { start = 6; end = 9 }) [] refl refl
      refl (omega arith)

after_lines-destroyed_example :
    after_lines (open_region (record { start = 7; end = 9 } ∷ []) (8 ∷ 9 ∷ [])) ≡ none
after_lines-destroyed_example =
    after_lines-destroyed (open_region (record { start = 7; end = 9 } ∷ []) (8 ∷ 9 ∷ [])) 8 9 []
      refl refl (ground arith)
