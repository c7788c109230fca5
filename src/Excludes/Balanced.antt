-- ===== src/Excludes/Balanced.antt =====
-- `find_blocks` of extras/libs/excludes/src/strip.cc, on texts where every start of a region has its
-- stop.
use git2_cxx.Base.{
  ℕ, ◌+◌, ◌%◌, ◌^◌, ◌<◌, Bool, true, false, ◌||◌, List, [], ◌∷◌, some, Bytes, length, ◌≡◌, refl,
  ◌∙◌, arith,
}
use git2_cxx.Text.Parts.{split}
use git2_cxx.Excludes.{
  Matchers, ExclBlock, Excludes, no_excludes, Mark, blank, ignored, stop_mark, line_mark, plain,
  end_mark, start_mark, mark_of, on_mark, on_line, on_lines, after_lines, backwards, find_blocks,
  is_line_excluded,
}
use git2_cxx.Excludes.Steps.{
  inside_after, balanced, excluded_at, marks_of, EndsBefore, on_mark_lem, balanced-start,
}

balanced-tail :
    (mark : Mark) (marks : List Mark) (inside : Bool)
    → balanced (mark ∷ marks) inside ≡ true
    → balanced marks (inside_after inside mark) ≡ true
unfolding balanced
balanced-tail blank marks inside h = h
balanced-tail ignored marks inside h = h
balanced-tail stop_mark marks inside h = h
balanced-tail line_mark marks inside h = h
balanced-tail plain marks inside h = h
balanced-tail (end_mark column) marks inside h = h
balanced-tail (start_mark column) marks inside h = (balanced-start column marks inside h).1

after_lines-closed : (s : Excludes) → s.inside_exclude ≡ false → after_lines s ≡ some s
unfolding after_lines
after_lines-closed s h = rw h refl

is_line_excluded-backwards :
    (blocks done : List ExclBlock) (n : ℕ)
    → is_line_excluded (backwards blocks done) n
      ≡ (is_line_excluded blocks n || is_line_excluded done n)
unfolding is_line_excluded
is_line_excluded-backwards [] done n = refl
is_line_excluded-backwards (block ∷ blocks) done n =
    ground (arith, is_line_excluded-backwards blocks (block ∷ done) n)

module _ (m : Matchers) (valid_markers : List Bytes) where
  on_lines-step :
      (text : Bytes) (texts : List Bytes) (line : ℕ) (s t : Excludes)
      → line + 1 < 2 ^ 32
      → on_mark s line (mark_of m valid_markers text) ≡ some t
      → on_lines m valid_markers (text ∷ texts) line s ≡ on_lines m valid_markers texts (line + 1) t
  unfolding on_lines on_line
  on_lines-step text texts line s t h e =
      let same : (line + 1) % 2 ^ 32 ≡ line + 1 = omega arith in
      let here : on_line m valid_markers s line text ≡ some t = e in rw (here, same, on_lines) refl

  on_lines_lem :
      (texts : List Bytes) (line n : ℕ) (s : Excludes)
      → line + length texts < 2 ^ 32
      → EndsBefore s.result line
      → balanced (marks_of m valid_markers texts) s.inside_exclude ≡ true
      → (t : Excludes) × (on_lines m valid_markers texts line s ≡ some t)
        × (t.inside_exclude ≡ false)
        × (is_line_excluded t.result n ≡ (
            is_line_excluded s.result n
            || excluded_at (marks_of m valid_markers texts) s.inside_exclude line n))
  unfolding on_lines balanced excluded_at
  on_lines_lem [] line n s h k b = (s, refl, ground arith, ground arith)
  on_lines_lem (text ∷ texts) line n s h k b =
      let mark = mark_of m valid_markers text in
      let marks = marks_of m valid_markers texts in
      let step = on_mark_lem s line n mark marks (omega arith) k b in
      let t = step.0 in
      let rest =
        on_lines_lem texts (line + 1) n t (omega arith) step.2
          (rw step.3 (balanced-tail mark marks s.inside_exclude b)) in
      (
        rest.0,
        on_lines-step text texts line s t (omega arith) step.1 ∙ rest.1,
        rest.2,
        ground (arith, rest.3, step.4, step.3),
      )

  find_blocks-closed :
      (text : Bytes) (s : Excludes)
      → on_lines m valid_markers (split text 10) 1 no_excludes ≡ some s
      → s.inside_exclude ≡ false
      → find_blocks m valid_markers text ≡ some (backwards s.result [], s.empties)
  unfolding find_blocks
  find_blocks-closed text s e h = rw (e, after_lines-closed s h, find_blocks) refl

  -- Of a text whose starts and stops are balanced, with fewer than 2 ^ 32 - 1 lines, `find_blocks`
  -- returns blocks that hold the lines that its marks exclude, and no others.
  pub find_blocks-excluded_at :
      (text : Bytes) (n : ℕ)
      → length (split text 10) + 1 < 2 ^ 32
      → balanced (marks_of m valid_markers (split text 10)) false ≡ true
      → (blocks : List ExclBlock) × (empties : List ℕ) × (find_blocks m valid_markers text
          ≡ some (blocks, empties))
        × (is_line_excluded blocks n
            ≡ excluded_at (marks_of m valid_markers (split text 10)) false 1 n)
  unfolding find_blocks after_lines EndsBefore is_line_excluded
  find_blocks-excluded_at text n h b =
      let r = on_lines_lem (split text 10) 1 n no_excludes (omega arith) (ground arith) b in
      let t = r.0 in
      (
        backwards t.result [],
        t.empties,
        find_blocks-closed text t r.1 r.2,
        rw (is_line_excluded-backwards t.result [] n) ground (arith, r.3),
      )
