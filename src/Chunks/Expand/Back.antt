-- ===== src/Chunks/Expand/Back.antt =====
-- The way of libs/cov-rt/src/report.cc, `expand_coverage`, and back through `from_coverage`.
use git2_cxx.Base.{
  ℕ, zero, suc, ◌+◌, ◌-◌, ◌%◌, ◌^◌, ◌==◌, ◌<◌, ◌≤◌, min, max, true, false, List, [], ◌∷◌, ◌++◌,
  Option, none, some, ltb, if◌then◌else◌, length, ◌≡◌, refl, ap, sym, ◌∙◌, arith, Bool-cases, inl,
  inr, length-append, length-replicate, append_assoc, replicate, ltb→lt, ltb→ge,
}
use git2_cxx.Stats.{Coverage}
use git2_cxx.Chunks.{CoverageMap, count_for, from_coverage}
use git2_cxx.Chunks.Counts.{lines_of, nth, nth-blank, nth-behind, count_for-from_coverage}
use git2_cxx.Chunks.Expand.{
  visitor, null_chunks, gap, visit_counts, last_line, visit_rest, expand_coverage, expand_stats,
}

-- Counts in strictly ascending order of their lines, which follow a line.
unfoldable pub Follow : ℕ → CoverageMap → Type 0
Follow prev_line [] = true ≡ true
Follow prev_line ((line, hits) ∷ coverage) =
    (prev_line < line) × ((line < 2 ^ 32) × Follow line coverage)

-- A count as it is kept.
abbrev pub kept : Option ℕ → Option ℕ
kept none = none
kept (some hits) = some (min (2 ^ 31 - 1) hits)

replicate-add :
    (a b : ℕ) → replicate {A = Option ℕ} a none ++ replicate b none ≡ replicate (a + b) none
replicate-add zero b =
    let same : b ≡ zero + b = omega arith in ap (λ (n : ℕ). replicate {A = Option ℕ} n none) same
replicate-add (suc a) b =
    let one_more : suc a + b ≡ suc (a + b) = omega arith in
    rw one_more (ap (◌∷◌ none) (replicate-add a b))

lines_of-null_chunks : (fuel n : ℕ) → n ≤ fuel → lines_of (null_chunks fuel n) ≡ replicate n none
unfolding lines_of null_chunks
lines_of-null_chunks zero zero h = refl
lines_of-null_chunks zero (suc n) h = absurd (omega arith)
lines_of-null_chunks (suc fuel) zero h = refl
lines_of-null_chunks (suc fuel) (suc n) h =
    let chunk = min (2 ^ 31 - 1) (suc n) in
    let whole : chunk % 2 ^ 31 ≡ chunk = omega arith in
    let parts : chunk + (suc n - chunk) ≡ suc n = omega arith in
    let nonzero : (suc n == 0) ≡ false = ground arith in
    rw (nonzero, whole, lines_of-null_chunks fuel (suc n - chunk) (omega arith))
      (replicate-add chunk (suc n - chunk) ∙ ap (λ (k : ℕ). replicate {A = Option ℕ} k none) parts)

lines_of-append : (xs ys : List Coverage) → lines_of (xs ++ ys) ≡ lines_of xs ++ lines_of ys
unfolding lines_of
lines_of-append [] ys = refl
lines_of-append (c ∷ xs) ys = elim (Bool-cases c.is_null) [
  | inl e ↦
      rw (e, lines_of-append xs ys)
        (sym (append_assoc (replicate c.value none) (lines_of xs) (lines_of ys)))
  | inr e ↦ rw (e, lines_of-append xs ys) refl
]

-- No line with code.
nth-none : (n m : ℕ) → nth (replicate n none) m ≡ none
unfolding nth
nth-none zero m = refl
nth-none (suc n) zero = refl
nth-none (suc n) (suc m) = nth-none n m

visit_rest-nth : (prev_line result m : ℕ) → nth (lines_of (visit_rest prev_line result)) m ≡ none
unfolding visit_rest lines_of nth
visit_rest-nth prev_line result m = elim (Bool-cases (ltb prev_line result)) [
  | inl e ↦
      let n = gap result prev_line in rw (e, lines_of-null_chunks n n (omega arith)) (nth-none n m)
  | inr e ↦ rw e refl
]

count_for-past :
    (coverage : CoverageMap) (prev_line m : ℕ)
    → Follow prev_line coverage
    → m ≤ prev_line
    → count_for coverage m ≡ none
unfolding count_for Follow
count_for-past [] prev_line m h k = refl
count_for-past ((line, hits) ∷ coverage) prev_line m h k =
    let other : (line == m) ≡ false = ground (arith, h.0) in
    rw other (count_for-past coverage line m h.1.1 (omega (arith, h.0)))

-- From a line with code on, if the lines behind it are as they should be.
from_line :
    (line hits : ℕ) (coverage : CoverageMap) (rest : List (Option ℕ)) (j : ℕ)
    → ((i : ℕ) → nth rest i ≡ kept (count_for coverage (line + suc i)))
    → nth (some (min (2 ^ 31 - 1) hits % 2 ^ 31) ∷ rest) j
      ≡ kept (count_for ((line, hits) ∷ coverage) (line + j))
unfolding nth count_for
from_line line hits coverage rest zero later =
    let here : (line == line + 0) ≡ true = ground arith in
    let whole : min (2 ^ 31 - 1) hits % 2 ^ 31 ≡ min (2 ^ 31 - 1) hits = omega arith in
    rw (here, whole) refl
from_line line hits coverage rest (suc j) later =
    let other : (line == line + suc j) ≡ false = ground arith in rw other (later j)

visit_counts-nth :
    (coverage : CoverageMap) (prev_line : ℕ) (rest : List (Option ℕ)) (m : ℕ)
    → Follow prev_line coverage
    → ((j : ℕ) → nth rest j ≡ none)
    → nth (lines_of (visit_counts coverage prev_line) ++ rest) m
      ≡ kept (count_for coverage (prev_line + suc m))
unfolding visit_counts Follow count_for lines_of
visit_counts-nth [] prev_line rest m h blank = blank m
visit_counts-nth ((line, hits) ∷ coverage) prev_line rest m h blank =
    let g = gap line prev_line in
    let size : g ≡ line - prev_line - 1 = omega (arith, h.0, h.1.0) in
    let behind = lines_of (visit_counts coverage line) ++ rest in
    let own = some (min (2 ^ 31 - 1) hits % 2 ^ 31) in
    let whole : lines_of (visit_counts ((line, hits) ∷ coverage) prev_line) ++ rest
        ≡ replicate g none ++ own ∷ behind =
      ap (λ xs. xs ++ rest)
        (lines_of-append (null_chunks g g)
            (visitor (min (2 ^ 31 - 1) hits) false ∷ visit_counts coverage line)
          ∙ ap (λ xs. xs ++ own ∷ lines_of (visit_counts coverage line))
              (lines_of-null_chunks g g (omega arith)))
      ∙ append_assoc (replicate g none) (own ∷ lines_of (visit_counts coverage line)) rest in
    ap (λ xs. nth xs m) whole ∙ elim (Bool-cases (ltb m g)) [
      | inl e ↦
          let early = ltb→lt m g e in
          let other : (line == prev_line + suc m) ≡ false = ground (arith, size, early, h.0) in
          nth-blank g (own ∷ behind) m early
          ∙ rw other (
              ap kept (
                sym (
                  count_for-past coverage line (prev_line + suc m) h.1.1
                    (omega (arith, size, early, h.0)))))
      | inr e ↦
          let late = ltb→ge m g e in
          let split : m ≡ g + (m - g) = omega (arith, late) in
          let place : line + (m - g) ≡ prev_line + suc m = omega (arith, late, size, h.0) in
          ap (nth (replicate g none ++ own ∷ behind)) split
          ∙ nth-behind g (own ∷ behind) (m - g)
          ∙ from_line line hits coverage behind (m - g)
              (λ i. visit_counts-nth coverage line rest i h.1.1 blank)
          ∙ ap (λ (l : ℕ). kept (count_for ((line, hits) ∷ coverage) l)) place
    ]

visit_counts-length :
    (coverage : CoverageMap) (prev_line : ℕ)
    → Follow prev_line coverage
    → prev_line + length (lines_of (visit_counts coverage prev_line)) ≡ last_line coverage prev_line
unfolding visit_counts last_line Follow lines_of
visit_counts-length [] prev_line h = omega arith
visit_counts-length ((line, hits) ∷ coverage) prev_line h =
    let g = gap line prev_line in
    let later = visit_counts coverage line in
    let own = visitor (min (2 ^ 31 - 1) hits) false in
    let size : g ≡ line - prev_line - 1 = omega (arith, h.0, h.1.0) in
    let parts = lines_of-append (null_chunks g g) (own ∷ later) in
    let total : length (lines_of (null_chunks g g ++ own ∷ later))
        ≡ g + suc (length (lines_of later)) =
      ap length parts
      ∙ length-append (lines_of (null_chunks g g)) (lines_of (own ∷ later))
      ∙ ap (λ xs. length xs + suc (length (lines_of later)))
          (lines_of-null_chunks g g (omega arith))
      ∙ ap (λ (n : ℕ). n + suc (length (lines_of later))) (length-replicate g none) in
    omega (arith, total, size, h.0, visit_counts-length coverage line h.1.1)

last_line-lt :
    (coverage : CoverageMap) (prev_line : ℕ)
    → Follow prev_line coverage
    → prev_line < 2 ^ 32
    → last_line coverage prev_line < 2 ^ 32
unfolding last_line Follow
last_line-lt [] prev_line h k = k
last_line-lt ((line, hits) ∷ coverage) prev_line h k = last_line-lt coverage line h.1.1 h.1.0

visit_rest-length :
    (prev_line result : ℕ)
    → result < 2 ^ 32
    → prev_line < 2 ^ 32
    → length (lines_of (visit_rest prev_line result)) ≡ result - prev_line - 1
unfolding visit_rest lines_of
visit_rest-length prev_line result h k = elim (Bool-cases (ltb prev_line result)) [
  | inl e ↦
      let g = gap result prev_line in
      let size : g ≡ result - prev_line - 1 = omega (arith, ltb→lt prev_line result e) in
      rw e (
        ap length (lines_of-null_chunks g g (omega arith))
        ∙ length-replicate {A = Option ℕ} g none
        ∙ size)
  | inr e ↦ rw e (omega (arith, ltb→ge prev_line result e))
]

expand_coverage-length :
    (coverage : CoverageMap) (line_count : ℕ)
    → Follow 0 coverage
    → length (lines_of (expand_coverage coverage line_count))
      ≡ last_line coverage 0 + (line_count % 2 ^ 32 - last_line coverage 0 - 1)
unfolding expand_coverage
expand_coverage-length coverage line_count h =
    let prev_line = last_line coverage 0 in
    let result = max prev_line (line_count % 2 ^ 32) in
    let low = last_line-lt coverage 0 h (omega arith) in
    let parts = lines_of-append (visit_counts coverage 0) (visit_rest prev_line result) in
    let total =
      ap length parts
      ∙ length-append (lines_of (visit_counts coverage 0))
          (lines_of (visit_rest prev_line result)) in
    omega (
      arith,
      total,
      visit_counts-length coverage 0 h,
      visit_rest-length prev_line result (omega (arith, low)) low,
    )

-- If the counts are in strictly ascending order of their lines, from line 1 on, the coverage that is made
-- of them has as many lines as its counters say, or one less if the file has lines behind the last count.
pub expand_coverage-total :
    (coverage : CoverageMap) (line_count : ℕ)
    → Follow 0 coverage
    → length (lines_of (expand_coverage coverage line_count))
      ≡ (expand_stats coverage line_count).lines_total
        - (if ltb (last_line coverage 0) (line_count % 2 ^ 32) then 1 else 0)
unfolding expand_stats
expand_coverage-total coverage line_count h =
    let size = expand_coverage-length coverage line_count h in
    elim (Bool-cases (ltb (last_line coverage 0) (line_count % 2 ^ 32))) [
      | inl e ↦ rw e (omega (arith, size, ltb→lt (last_line coverage 0) (line_count % 2 ^ 32) e))
      | inr e ↦ rw e (omega (arith, size, ltb→ge (last_line coverage 0) (line_count % 2 ^ 32) e))
    ]

-- If the counts are in strictly ascending order of their lines, from line 1 on, reading back the coverage
-- that is made of them gives every line the count that it had, or 2 ^ 31 - 1 if that is less, and no
-- other line a count.
pub from_coverage-expand_coverage :
    (coverage : CoverageMap) (line_count m : ℕ)
    → Follow 0 coverage
    → count_for (from_coverage (expand_coverage coverage line_count)) (suc m)
      ≡ kept (count_for coverage (suc m))
unfolding expand_coverage
from_coverage-expand_coverage coverage line_count m h =
    let prev_line = last_line coverage 0 in
    let result = max prev_line (line_count % 2 ^ 32) in
    let place : 0 + suc m ≡ suc m = omega arith in
    let fits : length (lines_of (expand_coverage coverage line_count)) < 2 ^ 32 = omega (
      arith,
      expand_coverage-length coverage line_count h,
      last_line-lt coverage 0 h (omega arith),
    ) in
    count_for-from_coverage (expand_coverage coverage line_count) m fits
    ∙ ap (λ xs. nth xs m) (lines_of-append (visit_counts coverage 0) (visit_rest prev_line result))
    ∙ visit_counts-nth coverage 0 (lines_of (visit_rest prev_line result)) m h
        (visit_rest-nth prev_line result)
    ∙ ap (λ (l : ℕ). kept (count_for coverage l)) place
