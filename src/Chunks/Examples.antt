-- ===== src/Chunks/Examples.antt =====
-- A small file: its counts, its chunks, and instances of the theorems.
use git2_cxx.Base.{
  ◌-◌, length, ◌*◌, ◌^◌, ◌<◌, ◌≤◌, max, true, false, List, [], ◌∷◌, some, ◌≡◌, refl, arith,
}
use git2_cxx.Stats.{Coverage}
use git2_cxx.Functions.{Function}
use git2_cxx.Chunks.{CoverageMap, from_coverage, count_for, find_chunks, column_width}
use git2_cxx.Chunks.Cover.{in_chunks, IsApart}
use git2_cxx.Chunks.Marks.{
  not_run, not_called, LinesFrom, StartsFrom, find_chunks-covers, find_chunks-IsApart,
}
use git2_cxx.Chunks.Expand.{expand_coverage, expand_stats, last_line}
use git2_cxx.Chunks.Expand.Back.{Follow, from_coverage-expand_coverage, expand_coverage-total}
use git2_cxx.Chunks.Counts.{lines_of, nth, count_for-from_coverage, column_width_lem}

-- Two lines without code, one that ran five times, twenty without code, and one that did not run.
abbrev file : List Coverage
file =
    record { value = 2; is_null = true }
    ∷ (record { value = 5; is_null = false }
        ∷ (record { value = 20; is_null = true } ∷ (record { value = 0; is_null = false } ∷ [])))

abbrev counts : CoverageMap
counts = (3, 5) ∷ ((24, 0) ∷ [])

abbrev uncalled_function : Function
uncalled_function = record {
  pos = record { start = record { line = 3; column = 1 }; end = record { line = 3; column = 9 } };
  names = [];
  count = 0;
}

from_coverage_test : from_coverage file ≡ counts
unfolding from_coverage
from_coverage_test = refl

find_chunks_test : find_chunks counts (uncalled_function ∷ []) ≡ (21, 27) ∷ ((0, 6) ∷ [])
unfolding find_chunks
find_chunks_test = refl

column_width_test : column_width 1000 ≡ 4
unfolding column_width
column_width_test = refl

find_chunks-covers_example : in_chunks (find_chunks counts (uncalled_function ∷ [])) 24 ≡ true
unfolding LinesFrom StartsFrom not_run not_called
find_chunks-covers_example =
    find_chunks-covers counts (uncalled_function ∷ []) 24
      (omega arith, (omega arith, (omega arith, (omega arith, refl))))
      (omega arith, (omega arith, refl)) refl

find_chunks-IsApart_example : IsApart (find_chunks counts (uncalled_function ∷ []))
unfolding LinesFrom StartsFrom
find_chunks-IsApart_example =
    find_chunks-IsApart counts (uncalled_function ∷ [])
      (omega arith, (omega arith, (omega arith, (omega arith, refl))))
      (omega arith, (omega arith, refl))

count_for-from_coverage_example : count_for (from_coverage file) 24 ≡ some 0
unfolding lines_of nth
count_for-from_coverage_example = count_for-from_coverage file 23 (omega arith)

column_width_lem_test : (1000 < 10 ^ column_width 1000) × (10 ^ column_width 1000 ≤ max 1000 1 * 10)
column_width_lem_test = column_width_lem 1000

-- The line 7 of a file of 10 lines ran three times.
abbrev ran : CoverageMap
ran = (7, 3) ∷ []

expand_coverage_test :
    expand_coverage ran 10
    ≡ record { value = 6; is_null = true }
      ∷ (record { value = 3; is_null = false } ∷ (record { value = 2; is_null = true } ∷ []))
unfolding expand_coverage
expand_coverage_test = refl

from_coverage-expand_coverage_example :
    count_for (from_coverage (expand_coverage ran 10)) 7 ≡ some 3
unfolding Follow count_for
from_coverage-expand_coverage_example =
    from_coverage-expand_coverage ran 10 6 (omega arith, (omega arith, refl))

expand_coverage-total_example :
    length (lines_of (expand_coverage ran 10)) ≡ (expand_stats ran 10).lines_total - 1
unfolding Follow last_line
expand_coverage-total_example = expand_coverage-total ran 10 (omega arith, (omega arith, refl))
