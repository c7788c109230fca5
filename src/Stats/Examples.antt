-- ===== src/Stats/Examples.antt =====
-- Tests of the counters, and the theorems about them at concrete values.
use git2_cxx.Base.{◌+◌, ◌-◌, ◌<◌, ◌≤◌, true, false, List, [], ◌∷◌, ◌++◌, ◌≡◌, refl, arith}
use git2_cxx.Base.Int.{pos, negsuc, sub_ℕ}
use git2_cxx.Words.{add_u32, inc_u32}
use git2_cxx.Stats.{CoverageStats, Coverage, init, add_coverage, from, diff, IsValidCoverage}
use git2_cxx.Stats.Laws.{add_coverage-IsValidCoverage}
use git2_cxx.Stats.Totals.{
  text_lines, code_lines, run_lines, clipped, from-clipped, from-append, from-IsValidCoverage,
}
use git2_cxx.Stats.Diff.{max_i32, diff_lem}

-- Ten lines with no code, one that ran three times, and one that did not run.
abbrev lines : List Coverage
lines =
    record { value = 10; is_null = true }
    ∷ record { value = 3; is_null = false }
    ∷ record { value = 0; is_null = false }
    ∷ []

abbrev counters : CoverageStats
counters = record {
  lines_total = 12;
  lines = record { relevant = 2; visited = 1 };
  functions = init;
  branches = init;
}

from_lines : from lines ≡ counters
unfolding from add_u32 inc_u32
from_lines = refl

counters-IsValidCoverage : IsValidCoverage counters
counters-IsValidCoverage = omega arith

add_coverage-IsValidCoverage_test : IsValidCoverage (add_coverage counters counters)
add_coverage-IsValidCoverage_test =
    add_coverage-IsValidCoverage counters counters counters-IsValidCoverage counters-IsValidCoverage

from-clipped_example : from lines ≡ clipped (text_lines lines) (code_lines lines) (run_lines lines)
from-clipped_example = from-clipped lines

from-append_test : from (lines ++ lines) ≡ add_coverage (from lines) (from lines)
from-append_test = from-append lines lines

from-IsValidCoverage_test : IsValidCoverage (from lines)
from-IsValidCoverage_test = from-IsValidCoverage lines

diff_lem_test :
    (3 ≤ 5 + max_i32 → 5 ≤ 3 + max_i32 → diff 3 5 ≡ sub_ℕ 3 5)
    × (5 + max_i32 < 3 → diff 3 5 ≡ pos max_i32)
    × (3 + max_i32 < 5 → diff 3 5 ≡ negsuc (max_i32 - 1))
diff_lem_test = diff_lem 3 5
