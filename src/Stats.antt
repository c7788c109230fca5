-- ===== src/Stats.antt =====
-- libs/cov-api/include/cov/io/types.hh: `stats`, `coverage_stats` and the line counters that a
-- file's coverage is folded into, with the signed differences between two of them.
pub mod Laws
pub mod Totals
pub mod Diff
pub mod Examples
use mathlib.Core.List.{foldl}
use git2_cxx.Base.{ℕ, ◌-◌, ◌^◌, ◌≤◌, ◌==◌, Bool, List, min, ltb, if◌then◌else◌}
use git2_cxx.Base.Int.{ℤ, pos, neg_ℕ}
use git2_cxx.Words.{IsU32, add_u32, inc_u32}

pub record Stats : Type 0 where
  pub relevant : ℕ
  pub visited : ℕ

abbrev pub init : Stats
init = record { relevant = 0; visited = 0 }

unfoldable pub add : Stats → Stats → Stats
add s t = record { relevant = add_u32 s.relevant t.relevant; visited = add_u32 s.visited t.visited }

pub record CoverageStats : Type 0 where
  pub lines_total : ℕ
  pub lines : Stats
  pub functions : Stats
  pub branches : Stats

abbrev pub init_coverage : CoverageStats
init_coverage = record { lines_total = 0; lines = init; functions = init; branches = init }

unfoldable pub add_coverage : CoverageStats → CoverageStats → CoverageStats
unfolding add
add_coverage s t = record {
  lines_total = add_u32 s.lines_total t.lines_total;
  lines = add s.lines t.lines;
  functions = add s.functions t.functions;
  branches = add s.branches t.branches;
}

-- A run of `value` lines with no code, or a line that ran `value` times.
pub record Coverage : Type 0 where
  pub value : ℕ
  pub is_null : Bool

unfoldable pub add_line : CoverageStats → Coverage → CoverageStats
add_line s c =
    if c.is_null then record s { lines_total = add_u32 s.lines_total c.value } else record s {
      lines_total = inc_u32 s.lines_total;
      lines = record {
        relevant = inc_u32 s.lines.relevant;
        visited = if c.value == 0 then s.lines.visited else inc_u32 s.lines.visited;
      };
    }

unfoldable pub from : List Coverage → CoverageStats
unfolding add_line
from = foldl add_line init_coverage

-- The difference of two `uint32_t`, held within the range of an `int32_t`.
unfoldable pub diff : ℕ → ℕ → ℤ
diff newer older =
    let neg = ltb newer older in
    let abs = min (if neg then older - newer else newer - older) (2 ^ 31 - 1) in
    if neg then neg_ℕ abs else pos abs

pub record StatsDiff : Type 0 where
  pub relevant : ℤ
  pub visited : ℤ

unfoldable pub diff_stats : Stats → Stats → StatsDiff
unfolding diff
diff_stats newer older = record {
  relevant = diff newer.relevant older.relevant;
  visited = diff newer.visited older.visited;
}

pub record CoverageDiff : Type 0 where
  pub lines_total : ℤ
  pub lines : StatsDiff
  pub functions : StatsDiff
  pub branches : StatsDiff

unfoldable pub diff_coverage : CoverageStats → CoverageStats → CoverageDiff
unfolding diff diff_stats
diff_coverage newer older = record {
  lines_total = diff newer.lines_total older.lines_total;
  lines = diff_stats newer.lines older.lines;
  functions = diff_stats newer.functions older.functions;
  branches = diff_stats newer.branches older.branches;
}

-- What every counter of the program keeps: it fits its word, and no more is visited than relevant.
pub record IsValid (s : Stats) : Type 0 where
  pub fits : IsU32 s.relevant
  pub within : s.visited ≤ s.relevant

pub record IsValidCoverage (s : CoverageStats) : Type 0 where
  pub fits : IsU32 s.lines_total
  pub lines_total : s.lines.relevant ≤ s.lines_total
  pub lines : IsValid s.lines
  pub functions : IsValid s.functions
  pub branches : IsValid s.branches
