-- ===== src/Excludes/Recovery.antt =====
-- `after_lines` of extras/libs/excludes/src/excludes.cc, with a region that is still open at the end.
use git2_cxx.Base.{
  ℕ, ◌<◌, ◌≤◌, true, ◌&&◌, List, [], ◌∷◌, none, some, ltb, ◌≡◌, refl, ◌∙◌, arith, All, inl, inr,
  ◌⊎◌,
}
use git2_cxx.Excludes.{
  ExclBlock, Excludes, say, not_matched, push_block, exclude, drop_from, exclude_each, include_back,
  after_lines, is_line_excluded,
}

abbrev pub Before : ℕ → ExclBlock → Type 0
Before line block = (block.start ≤ block.end) × (block.end < line)

-- Blocks, newest first, that start at a line or behind it, and then blocks that end before it.
unfoldable pub SplitAt : ℕ → List ExclBlock → Type 0
SplitAt line [] = Unit
SplitAt line (block ∷ blocks) =
    ((line ≤ block.start) × SplitAt line blocks) ⊎ All (Before line) (block ∷ blocks)

excluded-Before :
    (blocks : List ExclBlock) (line n : ℕ)
    → All (Before line) blocks
    → is_line_excluded blocks n ≡ (ltb n line && is_line_excluded blocks n)
unfolding is_line_excluded
excluded-Before [] line n h = ground arith
excluded-Before (block ∷ blocks) line n h = ground (arith, excluded-Before blocks line n h.1)

excluded-drop_from :
    (blocks : List ExclBlock) (line n : ℕ)
    → SplitAt line blocks
    → is_line_excluded (drop_from blocks line) n ≡ (ltb n line && is_line_excluded blocks n)
unfolding SplitAt drop_from is_line_excluded
excluded-drop_from [] line n h = ground arith
excluded-drop_from (block ∷ blocks) line n (inl h) =
    ground (arith, excluded-drop_from blocks line n h.1)
excluded-drop_from (block ∷ blocks) line n (inr h) =
    ground (arith, excluded-Before blocks line n h.1)

abbrev closing : Excludes → Excludes
closing s = record (say s (not_matched s.last_start.0 s.last_start.1)) {
  result = drop_from s.result s.last_start.0;
}

after_lines-open :
    (s : Excludes)
    → s.inside_exclude ≡ true
    → after_lines s ≡ exclude_each s.single_lines (closing s)
unfolding after_lines include_back
after_lines-open s h = rw h refl

-- If no line with a mark of its own is remembered and no block spans the start of the open region,
-- the lines before that start stay as they were, and none from it on is excluded.
pub after_lines-SplitAt :
    (s : Excludes) (n : ℕ)
    → s.inside_exclude ≡ true
    → s.single_lines ≡ []
    → SplitAt s.last_start.0 s.result
    → (t : Excludes) × (after_lines s ≡ some t)
      × (is_line_excluded t.result n ≡ (ltb n s.last_start.0 && is_line_excluded s.result n))
unfolding exclude_each
after_lines-SplitAt s n i none_left h = (
  closing s,
  after_lines-open s i ∙ rw (none_left, exclude_each) refl,
  excluded-drop_from s.result s.last_start.0 n h,
)

-- If the open region went on an older block, which starts before it, and no line with a mark of its
-- own is remembered, nothing is taken back: the lines of the region stay excluded.
pub after_lines-older_block :
    (s : Excludes) (block : ExclBlock) (blocks : List ExclBlock)
    → s.inside_exclude ≡ true
    → s.single_lines ≡ []
    → s.result ≡ block ∷ blocks
    → block.start < s.last_start.0
    → (t : Excludes) × (after_lines s ≡ some t) × (t.result ≡ s.result)
unfolding exclude_each drop_from
after_lines-older_block s block blocks i none_left e h =
    (closing s, after_lines-open s i ∙ rw (none_left, exclude_each) refl, rw e (ground (arith)))

drop_from-all :
    (blocks : List ExclBlock) (line : ℕ)
    → All (λ block. line ≤ block.start) blocks
    → drop_from blocks line ≡ []
unfolding drop_from
drop_from-all [] line h = refl
drop_from-all (block ∷ blocks) line h = ground (arith, drop_from-all blocks line h.1)

-- If two or more lines with a mark of their own are remembered and every block starts in the open
-- region, the loop that puts those lines back reads an element that `exclude` has destroyed.
pub after_lines-destroyed :
    (s : Excludes) (line line' : ℕ) (lines : List ℕ)
    → s.inside_exclude ≡ true
    → s.single_lines ≡ line ∷ line' ∷ lines
    → All (λ block. s.last_start.0 ≤ block.start) s.result
    → after_lines s ≡ none
unfolding exclude_each exclude push_block
after_lines-destroyed s line line' lines i e h =
    after_lines-open s i ∙ rw (e, drop_from-all s.result s.last_start.0 h, exclude_each) refl
