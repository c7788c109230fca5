-- ===== src/Stats/Totals.antt =====
-- What the counters of a file count: an account of its lines without saturation.
use mathlib.Core.List.{foldl}
use git2_cxx.Base.{
  ℕ, ◌+◌, ◌≤◌, ◌≡◌, min, sym, ◌∙◌, ap, List, [], ◌∷◌, ◌++◌, if◌then◌else◌, arith, ◌==◌,
}
use git2_cxx.Words.{max_u32}
use git2_cxx.Words.Laws.{add_u32-min, inc_u32-min}
use git2_cxx.Stats.{CoverageStats, Coverage, init, add_coverage, add_line, from, IsValidCoverage}

-- How many lines of text the entries stand for.
unfoldable pub text_lines : List Coverage → ℕ
text_lines [] = 0
text_lines (c ∷ cs) = (if c.is_null then c.value else 1) + text_lines cs

-- How many of the lines have code, and how many of those ran.
unfoldable pub code_lines : List Coverage → ℕ
code_lines [] = 0
code_lines (c ∷ cs) = (if c.is_null then 0 else 1) + code_lines cs

unfoldable pub run_lines : List Coverage → ℕ
run_lines [] = 0
run_lines (c ∷ cs) = (if c.is_null then 0 else if c.value == 0 then 0 else 1) + run_lines cs

-- The counters that stand for a total, a number of lines with code and a number of lines that ran.
abbrev pub clipped : ℕ → ℕ → ℕ → CoverageStats
clipped total code ran = record {
  lines_total = min max_u32 total;
  lines = record { relevant = min max_u32 code; visited = min max_u32 ran };
  functions = init;
  branches = init;
}

-- One line is one step of the account, from whatever was counted so far.
add_line-clipped :
    (total code ran : ℕ) (c : Coverage)
    → add_line (clipped total code ran) c
      ≡ clipped
          (total + text_lines (c ∷ []))
          (code + code_lines (c ∷ []))
          (ran + run_lines (c ∷ []))
unfolding add_line text_lines code_lines run_lines
add_line-clipped total code ran c = ground (
  arith,
  add_u32-min (min max_u32 total) c.value,
  inc_u32-min (min max_u32 total),
  inc_u32-min (min max_u32 code),
  inc_u32-min (min max_u32 ran),
)

clipped_eq : (a b c a' b' c' : ℕ) → a ≡ a' → b ≡ b' → c ≡ c' → clipped a b c ≡ clipped a' b' c'
clipped_eq a b c a' b' c' p q r = λ i. clipped (p i) (q i) (r i)

foldl-clipped :
    (cs : List Coverage) (total code ran : ℕ)
    → foldl add_line (clipped total code ran) cs
      ≡ clipped (total + text_lines cs) (code + code_lines cs) (ran + run_lines cs)
unfolding text_lines code_lines run_lines
foldl-clipped [] total code ran = clipped_eq _ _ _ _ _ _ (omega arith) (omega arith) (omega arith)
foldl-clipped (c ∷ cs) total code ran =
    ap (λ s. foldl add_line s cs) (add_line-clipped total code ran c)
    ∙ foldl-clipped cs _ _ _
    ∙ clipped_eq _ _ _ _ _ _ (omega arith) (omega arith) (omega arith)

-- The counters of a file are its exact counts, each held at the largest uint32_t, and nothing is
-- counted of functions or branches.
pub from-clipped :
    (cs : List Coverage) → from cs ≡ clipped (text_lines cs) (code_lines cs) (run_lines cs)
unfolding from
from-clipped cs =
    foldl-clipped cs 0 0 0 ∙ clipped_eq _ _ _ _ _ _ (omega arith) (omega arith) (omega arith)

code-le-text :
    (cs : List Coverage) → (run_lines cs ≤ code_lines cs) × (code_lines cs ≤ text_lines cs)
unfolding text_lines code_lines run_lines
code-le-text [] = omega arith
code-le-text (c ∷ cs) = ground (arith, code-le-text cs)

-- The counters of every file are valid: they fit their words, no more lines are visited than have
-- code, and no more have code than there are.
pub from-IsValidCoverage : (cs : List Coverage) → IsValidCoverage (from cs)
from-IsValidCoverage cs = rw (from-clipped cs) (omega (arith, code-le-text cs))

text_lines-append :
    (xs ys : List Coverage)
    → (text_lines (xs ++ ys) ≡ text_lines xs + text_lines ys)
      × (code_lines (xs ++ ys) ≡ code_lines xs + code_lines ys)
      × (run_lines (xs ++ ys) ≡ run_lines xs + run_lines ys)
unfolding text_lines code_lines run_lines
text_lines-append [] ys = omega arith
text_lines-append (x ∷ xs) ys = omega (arith, text_lines-append xs ys)

add_coverage-clipped :
    (a b c a' b' c' : ℕ)
    → add_coverage (clipped a b c) (clipped a' b' c') ≡ clipped (a + a') (b + b') (c + c')
unfolding add_coverage
add_coverage-clipped a b c a' b' c' = ground (
  arith,
  add_u32-min (min max_u32 a) (min max_u32 a'),
  add_u32-min (min max_u32 b) (min max_u32 b'),
  add_u32-min (min max_u32 c) (min max_u32 c'),
  add_u32-min 0 0,
)

-- Counting two parts of a file apart and adding the counters is counting the file at once, also
-- where a counter is full.
pub from-append : (xs ys : List Coverage) → from (xs ++ ys) ≡ add_coverage (from xs) (from ys)
from-append xs ys =
    let (t, c, r) = text_lines-append xs ys in
    from-clipped (xs ++ ys)
    ∙ clipped_eq _ _ _ _ _ _ t c r
    ∙ rw (from-clipped xs, from-clipped ys)
        (sym (
          add_coverage-clipped (text_lines xs) (code_lines xs) (run_lines xs) (text_lines ys)
            (code_lines ys) (run_lines ys)))
