-- ===== src/Stats/Laws.antt =====
-- Sums of counters: validity and the laws of addition.
use git2_cxx.Base.{ℕ, ◌≤◌, ◌≡◌, arith}
use git2_cxx.Words.{IsU32, add_u32}
use git2_cxx.Words.Laws.{add_u32-min}
use git2_cxx.Stats.{Stats, CoverageStats, add, add_coverage, IsValid, IsValidCoverage}

add_u32-IsU32 : (a b : ℕ) → IsU32 a → IsU32 (add_u32 a b)
add_u32-IsU32 a b h = omega (arith, add_u32-min a b h)

add_u32_mono : (a b c d : ℕ) → a ≤ c → b ≤ d → IsU32 c → add_u32 a b ≤ add_u32 c d
add_u32_mono a b c d h k f = omega (arith, add_u32-min a b (omega arith), add_u32-min c d f)

add_u32_assoc : (a b c : ℕ) → IsU32 a → IsU32 b → add_u32 (add_u32 a b) c ≡ add_u32 a (add_u32 b c)
add_u32_assoc a b c ha hb = omega (
  arith,
  add_u32-min a b ha,
  add_u32-min b c hb,
  add_u32-min (add_u32 a b) c (add_u32-IsU32 a b ha),
  add_u32-min a (add_u32 b c) ha,
)

add_u32_comm : (a b : ℕ) → IsU32 a → IsU32 b → add_u32 a b ≡ add_u32 b a
add_u32_comm a b ha hb = omega (arith, add_u32-min a b ha, add_u32-min b a hb)

pub add-IsValid : (s t : Stats) → IsValid s → IsValid t → IsValid (add s t)
unfolding add
add-IsValid s t v w = record {
  fits = add_u32-IsU32 s.relevant t.relevant v.fits;
  within = add_u32_mono s.visited t.visited s.relevant t.relevant v.within w.within v.fits;
}

add_assoc : (s t u : Stats) → IsValid s → IsValid t → add (add s t) u ≡ add s (add t u)
unfolding add
add_assoc s t u v w = λ i. record {
  relevant = add_u32_assoc s.relevant t.relevant u.relevant v.fits w.fits i;
  visited = add_u32_assoc s.visited t.visited u.visited (omega arith) (omega arith) i;
}

add_comm : (s t : Stats) → IsValid s → IsValid t → add s t ≡ add t s
unfolding add
add_comm s t v w = λ i. record {
  relevant = add_u32_comm s.relevant t.relevant v.fits w.fits i;
  visited = add_u32_comm s.visited t.visited (omega arith) (omega arith) i;
}

-- A sum of two valid counters is valid: nothing wraps around, and no more is visited than relevant.
pub add_coverage-IsValidCoverage :
    (s t : CoverageStats)
    → IsValidCoverage s
    → IsValidCoverage t
    → IsValidCoverage (add_coverage s t)
unfolding add_coverage
add_coverage-IsValidCoverage s t v w = record {
  fits = add_u32-IsU32 s.lines_total t.lines_total v.fits;
  lines_total =
      add_u32_mono s.lines.relevant t.lines.relevant s.lines_total t.lines_total v.lines_total
        w.lines_total v.fits;
  lines = add-IsValid s.lines t.lines v.lines w.lines;
  functions = add-IsValid s.functions t.functions v.functions w.functions;
  branches = add-IsValid s.branches t.branches v.branches w.branches;
}

add_coverage_assoc :
    (s t u : CoverageStats)
    → IsValidCoverage s
    → IsValidCoverage t
    → add_coverage (add_coverage s t) u ≡ add_coverage s (add_coverage t u)
unfolding add_coverage
add_coverage_assoc s t u v w = λ i. record {
  lines_total = add_u32_assoc s.lines_total t.lines_total u.lines_total v.fits w.fits i;
  lines = add_assoc s.lines t.lines u.lines v.lines w.lines i;
  functions = add_assoc s.functions t.functions u.functions v.functions w.functions i;
  branches = add_assoc s.branches t.branches u.branches v.branches w.branches i;
}

add_coverage_comm :
    (s t : CoverageStats)
    → IsValidCoverage s
    → IsValidCoverage t
    → add_coverage s t ≡ add_coverage t s
unfolding add_coverage
add_coverage_comm s t v w = λ i. record {
  lines_total = add_u32_comm s.lines_total t.lines_total v.fits w.fits i;
  lines = add_comm s.lines t.lines v.lines w.lines i;
  functions = add_comm s.functions t.functions v.functions w.functions i;
  branches = add_comm s.branches t.branches v.branches w.branches i;
}
