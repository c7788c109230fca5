-- ===== src/Chunks.antt =====
-- libs/cov-core/src/cvg_info.cc: the lines of a file that a listing shows, and function_iterator of
-- libs/cov-api/include/cov/report.hh, which it walks.
pub mod Marks
pub mod Cover
pub mod Counts
pub mod Expand
pub mod Examples
use mathlib.Core.List.{foldl}
use git2_cxx.Base.{
  ℕ, zero, suc, ◌+◌, ◌-◌, ◌*◌, ◌/◌, ◌%◌, ◌^◌, ◌==◌, ◌<◌, ◌≤◌, min, max, Bool, true, false, not,
  ◌&&◌, ◌||◌, List, [], ◌∷◌, ◌++◌, Option, none, some, Bytes, ltb, leb, if◌then◌else◌, codes,
  length, ◌≡◌, ◌≢◌, refl, ap, sym, ◌∙◌, arith, All, Bool-cases, Option-cases, inl, inr, ◌⊎◌, ◌↔◌,
  length-append, length-replicate, append_assoc, append-nil, drop, take, replicate, get_or,
  get_elem?, map, tests, drop-append, take-append, All-append,
}
use git2_cxx.Stats.{Coverage}
use git2_cxx.Functions.{Function, TextPos, FunctionPos}

-- `std::map<unsigned, unsigned>`, in the order of its keys: `coverage[line] = count`.
abbrev pub CoverageMap : Type 0
CoverageMap = List (ℕ × ℕ)

unfoldable pub assign : ℕ → ℕ → CoverageMap → CoverageMap
assign line count [] = (line, count) ∷ []
assign line count ((other, old) ∷ coverage) =
    if ltb other line
    then (other, old) ∷ assign line count coverage
    else if other == line
    then (line, count) ∷ coverage
    else (line, count) ∷ (other, old) ∷ coverage

-- The loop of `from_coverage`.
unfoldable pub number_lines : List Coverage → ℕ → CoverageMap → CoverageMap
unfolding assign
number_lines [] line coverage = coverage
number_lines (c ∷ lines) line coverage =
    if c.is_null
    then number_lines lines ((line + c.value) % 2 ^ 32) coverage
    else number_lines lines ((line + 1) % 2 ^ 32) (assign ((line + 1) % 2 ^ 32) c.value coverage)

unfoldable pub from_coverage : List Coverage → CoverageMap
unfolding number_lines
from_coverage lines = number_lines lines 0 []

unfoldable pub count_for : CoverageMap → ℕ → Option ℕ
count_for [] line_no = none
count_for ((line, count) ∷ coverage) line_no =
    if line == line_no then some count else count_for coverage line_no

-- `function_iterator`, which is the functions that are left. `before` and `at` give those that the
-- callback is called with, in their order, and those that are left.
unfoldable pub before : ℕ → List Function → List Function × List Function
before line [] = ([], [])
before line (function ∷ functions) =
    let (called, left) = before line functions in
    if ltb function.pos.start.line line
    then (function ∷ called, left)
    else ([], function ∷ functions)

unfoldable pub skip_before : ℕ → List Function → List Function
skip_before line [] = []
skip_before line (function ∷ functions) =
    if ltb function.pos.start.line line then skip_before line functions else function ∷ functions

unfoldable pub at_line : ℕ → List Function → List Function × List Function
at_line line [] = ([], [])
at_line line (function ∷ functions) =
    let (called, left) = at_line line functions in
    if function.pos.start.line == line
    then (function ∷ called, left)
    else ([], function ∷ functions)

abbrev pub functions_at : ℕ → List Function → List Function × List Function
unfolding skip_before at_line
functions_at line functions = at_line line (skip_before line functions)

-- `mark_functions`: the lines that it marks.
unfoldable pub uncalled : List Function → List ℕ
uncalled [] = []
uncalled (function ∷ functions) =
    if function.count == 0 then function.pos.start.line ∷ uncalled functions else uncalled functions

-- The lines that `find_chunks` marks, in their order.
unfoldable pub marks : CoverageMap → List Function → List ℕ
unfolding uncalled before functions_at
marks [] functions = uncalled functions
marks ((line, count) ∷ coverage) functions =
    let earlier = before line functions in
    let here = functions_at line earlier.1 in
    let own = if count == 0 then line ∷ [] else [] in
    uncalled earlier.0 ++ (uncalled here.0 ++ (own ++ marks coverage here.1))

-- The first and the last line of a chunk. The chunks are listed from the back.
abbrev pub Chunk : Type 0
Chunk = ℕ × ℕ

-- The lines around a line.
abbrev pub chunk_start : ℕ → ℕ
chunk_start line = if ltb line 3 then 0 else line - 3

abbrev pub chunk_stop : ℕ → ℕ
chunk_stop line = (line + 3) % 2 ^ 32

unfoldable pub mark_line : List Chunk → ℕ → List Chunk
mark_line [] line = (chunk_start line, chunk_stop line) ∷ []
mark_line ((start, stop) ∷ chunks) line =
    if ltb ((stop + 3) % 2 ^ 32) (chunk_start line)
    then (chunk_start line, chunk_stop line) ∷ (start, stop) ∷ chunks
    else (start, chunk_stop line) ∷ chunks

unfoldable pub mark_lines : List Chunk → List ℕ → List Chunk
unfolding mark_line
mark_lines chunks [] = chunks
mark_lines chunks (line ∷ lines) = mark_lines (mark_line chunks line) lines

unfoldable pub find_chunks : CoverageMap → List Function → List Chunk
unfolding marks mark_lines
find_chunks coverage functions = mark_lines [] (marks coverage functions)

-- `column_width`: the digits of a number. A round divides by ten, so that the number itself is enough
-- fuel.
unfoldable pub digits_of : ℕ → ℕ → ℕ
digits_of zero num = 0
digits_of (suc fuel) num = let rest = digits_of fuel (num / 10) in if num == 0 then 0 else suc rest

unfoldable pub column_width : ℕ → ℕ
unfolding digits_of
column_width num = if num == 0 then 1 else digits_of num num
