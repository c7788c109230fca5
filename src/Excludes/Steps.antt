-- ===== src/Excludes/Steps.antt =====
-- What one line of a text changes, where every start of a region has its stop.
use git2_cxx.Base.{
  ℕ, ◌+◌, ◌^◌, ◌==◌, ◌<◌, ◌≤◌, Bool, true, false, not, ◌&&◌, ◌||◌, List, [], ◌∷◌, ◌++◌, some, Bytes,
  ◌≡◌, refl, ◌∙◌, arith, Bool-cases, inl, inr,
}
use git2_cxx.Excludes.{
  Matchers, ExclBlock, Excludes, Mark, blank, ignored, stop_mark, line_mark, plain, end_mark,
  start_mark, mark_of, push_block, exclude, on_start, on_mark, is_line_excluded, exclude_inside,
  say, stray_end,
}

-- Whether a region is open behind a line.
unfoldable pub inside_after : Bool → Mark → Bool
inside_after inside stop_mark = false
inside_after inside (start_mark column) = true
inside_after inside mark = inside

-- Whether a line is excluded, by its mark and whether it stands inside of a region.
unfoldable pub covers : Bool → Mark → Bool
covers inside blank = false
covers inside ignored = false
covers inside (start_mark column) = true
covers inside line_mark = true
covers inside mark = inside

-- No region starts inside of another, and none is open at the end.
unfoldable pub balanced : List Mark → Bool → Bool
unfolding inside_after
balanced [] inside = not inside
balanced (start_mark column ∷ marks) true = false
balanced (mark ∷ marks) inside = balanced marks (inside_after inside mark)

-- Whether line `n` is excluded, of lines numbered from `line_no` on.
unfoldable pub excluded_at : List Mark → Bool → ℕ → ℕ → Bool
unfolding inside_after covers
excluded_at [] inside line_no n = false
excluded_at (mark ∷ marks) inside line_no n =
    (line_no == n && covers inside mark)
    || excluded_at marks (inside_after inside mark) (line_no + 1) n

abbrev pub marks_of : Matchers → List Bytes → List Bytes → List Mark
marks_of m valid_markers [] = []
marks_of m valid_markers (text ∷ texts) =
    mark_of m valid_markers text ∷ marks_of m valid_markers texts

-- The newest block ends before a line.
unfoldable pub EndsBefore : List ExclBlock → ℕ → Type 0
EndsBefore [] line = Unit
EndsBefore (block ∷ blocks) line = (block.start ≤ block.end) × (block.end < line)

exclude_lem :
    (s : Excludes) (line n : ℕ)
    → line < 2 ^ 32
    → EndsBefore s.result line
    → EndsBefore (exclude s line).result (line + 1)
      × ((exclude s line).inside_exclude ≡ s.inside_exclude)
      × (is_line_excluded (exclude s line).result n ≡ (line == n || is_line_excluded s.result n))
unfolding exclude push_block is_line_excluded EndsBefore
exclude_lem s line n h k = ground arith

EndsBefore-suc :
    (blocks : List ExclBlock) (line : ℕ) → EndsBefore blocks line → EndsBefore blocks (line + 1)
unfolding EndsBefore
EndsBefore-suc [] line h = h
EndsBefore-suc (block ∷ blocks) line h = omega (arith, h)

exclude_inside_lem :
    (s : Excludes) (line n : ℕ)
    → line < 2 ^ 32
    → EndsBefore s.result line
    → EndsBefore (exclude_inside s line).result (line + 1)
      × ((exclude_inside s line).inside_exclude ≡ s.inside_exclude)
      × (is_line_excluded (exclude_inside s line).result n
          ≡ ((line == n && s.inside_exclude) || is_line_excluded s.result n))
exclude_inside_lem s line n h k =
    ground (arith, exclude_lem s line n h k, EndsBefore-suc s.result line k)

not_covered : (b c : Bool) → c ≡ ((b && false) || c)
not_covered b c = ground arith

covered : (b c : Bool) → (b || c) ≡ ((b && true) || c)
covered b c = ground arith

pub balanced-start :
    (column : ℕ) (marks : List Mark) (inside : Bool)
    → balanced (start_mark column ∷ marks) inside ≡ true
    → (inside ≡ false) × (balanced marks true ≡ true)
unfolding balanced inside_after
balanced-start column marks true h = cc
balanced-start column marks false h = (refl, h)

abbrev opened : Excludes → ℕ → ℕ → Excludes
opened s line column = record s { last_start = (line, column); inside_exclude = true }

on_mark-start :
    (s : Excludes) (line column : ℕ)
    → s.inside_exclude ≡ false
    → on_mark s line (start_mark column) ≡ some (exclude (opened s line column) line)
unfolding on_mark on_start
on_mark-start s line column h = rw (h, on_start) refl

-- One line of a balanced text moves the flag and excludes the line or not, and nothing else.
pub on_mark_lem :
    (s : Excludes) (line n : ℕ) (mark : Mark) (marks : List Mark)
    → line < 2 ^ 32
    → EndsBefore s.result line
    → balanced (mark ∷ marks) s.inside_exclude ≡ true
    → (t : Excludes) × (on_mark s line mark ≡ some t)
      × EndsBefore t.result (line + 1)
      × (t.inside_exclude ≡ inside_after s.inside_exclude mark)
      × (is_line_excluded t.result n
          ≡ ((line == n && covers s.inside_exclude mark) || is_line_excluded s.result n))
unfolding on_mark on_start inside_after covers balanced
on_mark_lem s line n blank marks h k b = (
  record s { empties = s.empties ++ line ∷ [] },
  refl,
  EndsBefore-suc s.result line k,
  refl,
  not_covered (line == n) (is_line_excluded s.result n),
)
on_mark_lem s line n ignored marks h k b = (
  s,
  refl,
  EndsBefore-suc s.result line k,
  refl,
  not_covered (line == n) (is_line_excluded s.result n),
)
on_mark_lem s line n stop_mark marks h k b =
    let e = exclude_inside_lem s line n h k in
    (record (exclude_inside s line) { inside_exclude = false }, refl, e.0, refl, e.2)
on_mark_lem s line n line_mark marks h k b =
    let marked = record s { single_lines = s.single_lines ++ line ∷ [] } in
    let e = exclude_lem marked line n h k in
    (exclude marked line, refl, e.0, e.1, e.2 ∙ covered (line == n) (is_line_excluded s.result n))
on_mark_lem s line n plain marks h k b =
    let e = exclude_inside_lem s line n h k in (exclude_inside s line, refl, e.0, e.1, e.2)
on_mark_lem s line n (end_mark column) marks h k b = elim (Bool-cases s.inside_exclude) [
  | inl i ↦
      let said = say s (stray_end line column) in
      let e = exclude_inside_lem said line n h k in
      (exclude_inside said line, rw i refl, e.0, e.1, e.2)
  | inr i ↦ (
    s,
    rw i refl,
    EndsBefore-suc s.result line k,
    refl,
    rw i (not_covered (line == n) (is_line_excluded s.result n)),
  )
]
on_mark_lem s line n (start_mark column) marks h k b =
    let closed = balanced-start column marks s.inside_exclude b in
    let e = exclude_lem (opened s line column) line n h k in
    (
      exclude (opened s line column) line,
      on_mark-start s line column closed.0,
      e.0,
      e.1,
      e.2 ∙ covered (line == n) (is_line_excluded s.result n),
    )
