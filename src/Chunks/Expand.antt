-- ===== src/Chunks/Expand.antt =====
-- libs/cov-rt/src/report.cc: the coverage of a file's lines that a report keeps, made of the counts by
-- line.
pub mod Back
use git2_cxx.Base.{
  ℕ, zero, suc, ◌+◌, ◌-◌, ◌*◌, ◌/◌, ◌%◌, ◌^◌, ◌==◌, ◌<◌, ◌≤◌, min, max, Bool, true, false, not,
  ◌&&◌, ◌||◌, List, [], ◌∷◌, ◌++◌, Option, none, some, Bytes, ltb, leb, if◌then◌else◌, codes,
  length, ◌≡◌, ◌≢◌, refl, ap, sym, ◌∙◌, arith, All, Bool-cases, Option-cases, inl, inr, ◌⊎◌, ◌↔◌,
  length-append, length-replicate, append_assoc, append-nil, drop, take, replicate, get_or,
  get_elem?, map, tests, drop-append, ltb→lt, ltb→ge, take-append, All-append,
}
use git2_cxx.Stats.{Coverage, CoverageStats, Stats, init, init_coverage}
use git2_cxx.Chunks.{CoverageMap, count_for, from_coverage}
use git2_cxx.Chunks.Counts.{lines_of, nth, nth-blank, nth-behind, count_for-from_coverage}

-- `visitor` of `expand_coverage`: the value is cut to 31 bits.
abbrev pub visitor : ℕ → Bool → Coverage
visitor count is_null = record { value = count % 2 ^ 31; is_null = is_null }

-- The loop over lines without code, of which every round takes one or more.
unfoldable pub null_chunks : ℕ → ℕ → List Coverage
null_chunks zero null_lines = []
null_chunks (suc fuel) null_lines =
    let chunk = min (2 ^ 31 - 1) null_lines in
    let rest = null_chunks fuel (null_lines - chunk) in
    if null_lines == 0 then [] else visitor chunk true ∷ rest

-- `line - prev_line - 1` in 32 bits.
abbrev pub gap : ℕ → ℕ → ℕ
gap line prev_line = (line + (2 ^ 32 - prev_line) + (2 ^ 32 - 1)) % 2 ^ 32

-- The loop over the counts by line, and the last line.
unfoldable pub visit_counts : CoverageMap → ℕ → List Coverage
unfolding null_chunks
visit_counts [] prev_line = []
visit_counts ((line, hits) ∷ coverage) prev_line =
    null_chunks (gap line prev_line) (gap line prev_line)
    ++ visitor (min (2 ^ 31 - 1) hits) false ∷ visit_counts coverage line

unfoldable pub last_line : CoverageMap → ℕ → ℕ
last_line [] prev_line = prev_line
last_line ((line, hits) ∷ coverage) prev_line = last_line coverage line

-- The lines behind the last one with code.
unfoldable pub visit_rest : ℕ → ℕ → List Coverage
unfolding null_chunks
visit_rest prev_line result =
    if ltb prev_line result then null_chunks (gap result prev_line) (gap result prev_line) else []

unfoldable pub expand_coverage : CoverageMap → ℕ → List Coverage
unfolding visit_counts last_line visit_rest
expand_coverage coverage line_count =
    let prev_line = last_line coverage 0 in
    visit_counts coverage 0 ++ visit_rest prev_line (max prev_line (line_count % 2 ^ 32))

-- `++` of a counter, and the counters that the visitor keeps.
abbrev pub plus_plus : ℕ → ℕ
plus_plus n = (n + 1) % 2 ^ 32

unfoldable pub count_visits : Stats → List Coverage → Stats
count_visits stats [] = stats
count_visits stats (c ∷ coverage) =
    let next = if c.is_null then stats else record {
      relevant = plus_plus stats.relevant;
      visited = if c.value == 0 then stats.visited else plus_plus stats.visited;
    } in
    count_visits next coverage

-- The counters of `expand_coverage`.
unfoldable pub expand_stats : CoverageMap → ℕ → CoverageStats
unfolding count_visits expand_coverage last_line
expand_stats coverage line_count = record init_coverage {
  lines_total = max (last_line coverage 0) (line_count % 2 ^ 32);
  lines = count_visits init (expand_coverage coverage line_count);
}
