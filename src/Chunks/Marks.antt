-- ===== src/Chunks/Marks.antt =====
-- The lines that `find_chunks` of libs/cov-core/src/cvg_info.cc marks: those that did not run, and the
-- starts of functions that were not called.
use git2_cxx.Base.{
  ℕ, ◌+◌, ◌^◌, ◌==◌, ◌<◌, ◌≤◌, Bool, true, false, ◌&&◌, ◌||◌, List, [], ◌∷◌, ◌++◌, ltb,
  if◌then◌else◌, ◌≡◌, refl, arith, Bool-cases, inl, inr, ge→ltb, ltb→lt, ltb→ge,
}
use git2_cxx.Functions.{Function}
use git2_cxx.Chunks.{CoverageMap, before, skip_before, at_line, uncalled, marks, find_chunks}
use git2_cxx.Chunks.Cover.{
  AscendsFrom, holds, in_chunks, IsApart, mark_lines-covers, mark_lines-IsApart,
}

-- A line that did not run.
unfoldable pub not_run : CoverageMap → ℕ → Bool
not_run [] line = false
not_run ((other, count) ∷ coverage) line = (other == line && count == 0) || not_run coverage line

-- A line where a function starts that was not called.
unfoldable pub not_called : List Function → ℕ → Bool
not_called [] line = false
not_called (f ∷ functions) line =
    (f.pos.start.line == line && f.count == 0) || not_called functions line

uncalled-not_called :
    (functions : List Function) (line : ℕ)
    → holds (uncalled functions) line ≡ not_called functions line
unfolding uncalled holds not_called
uncalled-not_called [] line = refl
uncalled-not_called (f ∷ functions) line = ground (arith, uncalled-not_called functions line)

-- Lines, and starts of functions, in ascending order.
unfoldable pub LinesFrom : ℕ → CoverageMap → Type 0
LinesFrom low [] = true ≡ true
LinesFrom low ((line, count) ∷ coverage) =
    (low ≤ line) × ((line + 6 < 2 ^ 32) × LinesFrom line coverage)

unfoldable pub StartsFrom : ℕ → List Function → Type 0
StartsFrom low [] = true ≡ true
StartsFrom low (f ∷ functions) =
    (low ≤ f.pos.start.line)
    × ((f.pos.start.line + 6 < 2 ^ 32) × StartsFrom f.pos.start.line functions)

AscendsFrom-weaken :
    (low high : ℕ) (lines : List ℕ) → low ≤ high → AscendsFrom high lines → AscendsFrom low lines
unfolding AscendsFrom
AscendsFrom-weaken low high [] h k = refl
AscendsFrom-weaken low high (line ∷ lines) h k = (omega (arith, k.0), k.1)

StartsFrom-weaken :
    (low high : ℕ) (fs : List Function) → low ≤ high → StartsFrom high fs → StartsFrom low fs
unfolding StartsFrom
StartsFrom-weaken low high [] h k = refl
StartsFrom-weaken low high (f ∷ fs) h k = (omega (arith, k.0), k.1)

AscendsFrom-own :
    (line count : ℕ) (lines : List ℕ)
    → line + 6 < 2 ^ 32
    → AscendsFrom line lines
    → AscendsFrom line ((if count == 0 then line ∷ [] else []) ++ lines)
unfolding AscendsFrom
AscendsFrom-own line count lines h k = elim (Bool-cases (count == 0)) [
  | inl e ↦ rw e (omega arith, (h, k))
  | inr e ↦ rw e k
]

AscendsFrom-uncalled :
    (low : ℕ) (fs : List Function) → StartsFrom low fs → AscendsFrom low (uncalled fs)
unfolding AscendsFrom StartsFrom uncalled
AscendsFrom-uncalled low [] h = refl
AscendsFrom-uncalled low (f ∷ fs) h = elim (Bool-cases (f.count == 0)) [
  | inl e ↦ rw e (h.0, (h.1.0, AscendsFrom-uncalled f.pos.start.line fs h.1.1))
  | inr e ↦ rw e (
      AscendsFrom-weaken low f.pos.start.line (uncalled fs) h.0
        (AscendsFrom-uncalled f.pos.start.line fs h.1.1))
]

-- A function that the callback is called with, in front of the lines that are marked later.
AscendsFrom-called :
    (low : ℕ) (f : Function) (called : List Function) (lines : List ℕ)
    → low ≤ f.pos.start.line
    → f.pos.start.line + 6 < 2 ^ 32
    → AscendsFrom f.pos.start.line (uncalled called ++ lines)
    → AscendsFrom low (uncalled (f ∷ called) ++ lines)
unfolding uncalled AscendsFrom
AscendsFrom-called low f called lines h fits rest = elim (Bool-cases (f.count == 0)) [
  | inl e ↦ rw e (h, (fits, rest))
  | inr e ↦ rw e (AscendsFrom-weaken low f.pos.start.line (uncalled called ++ lines) h rest)
]

AscendsFrom-before :
    (line low : ℕ) (fs : List Function) (lines : List ℕ)
    → low ≤ line
    → StartsFrom low fs
    → AscendsFrom line lines
    → AscendsFrom low (uncalled ((before line fs).0) ++ lines)
unfolding before StartsFrom uncalled
AscendsFrom-before line low [] lines h k fine = AscendsFrom-weaken low line lines h fine
AscendsFrom-before line low (f ∷ fs) lines h k fine =
    let start = f.pos.start.line in
    elim (Bool-cases (ltb start line)) [
      | inl e ↦
          let rest =
            AscendsFrom-before line start fs lines (omega (arith, ltb→lt start line e)) k.1.1
              fine in
          rw e (AscendsFrom-called low f ((before line fs).0) lines k.0 k.1.0 rest)
      | inr e ↦ rw e (AscendsFrom-weaken low line lines h fine)
    ]

before-StartsFrom :
    (line low : ℕ) (fs : List Function) → StartsFrom low fs → StartsFrom line ((before line fs).1)
unfolding before StartsFrom
before-StartsFrom line low [] k = refl
before-StartsFrom line low (f ∷ fs) k = elim (Bool-cases (ltb f.pos.start.line line)) [
  | inl e ↦ rw e (before-StartsFrom line f.pos.start.line fs k.1.1)
  | inr e ↦ rw e (ltb→ge f.pos.start.line line e, k.1)
]

skip_before_lem : (line : ℕ) (fs : List Function) → StartsFrom line fs → skip_before line fs ≡ fs
unfolding skip_before StartsFrom
skip_before_lem line [] k = refl
skip_before_lem line (f ∷ fs) k = rw (ge→ltb f.pos.start.line line k.0) refl

AscendsFrom-at_line :
    (line : ℕ) (fs : List Function) (lines : List ℕ)
    → StartsFrom line fs
    → AscendsFrom line lines
    → AscendsFrom line (uncalled ((at_line line fs).0) ++ lines)
unfolding at_line StartsFrom uncalled
AscendsFrom-at_line line [] lines k fine = fine
AscendsFrom-at_line line (f ∷ fs) lines k fine =
    let start = f.pos.start.line in
    elim (Bool-cases (start == line)) [
      | inl e ↦
          let called = (at_line line fs).0 in
          let rest =
            AscendsFrom-at_line line fs lines (StartsFrom-weaken line start fs k.0 k.1.1) fine in
          let own =
            AscendsFrom-weaken start line (uncalled called ++ lines) (ground (arith, e)) rest in
          rw e (AscendsFrom-called line f called lines k.0 k.1.0 own)
      | inr e ↦ rw e fine
    ]

at_line-StartsFrom :
    (line : ℕ) (fs : List Function) → StartsFrom line fs → StartsFrom line ((at_line line fs).1)
unfolding at_line StartsFrom
at_line-StartsFrom line [] k = refl
at_line-StartsFrom line (f ∷ fs) k = elim (Bool-cases (f.pos.start.line == line)) [
  | inl e ↦ rw e (at_line-StartsFrom line fs (StartsFrom-weaken line f.pos.start.line fs k.0 k.1.1))
  | inr e ↦ rw e k
]

pub marks-AscendsFrom :
    (coverage : CoverageMap) (fs : List Function) (low : ℕ)
    → LinesFrom low coverage
    → StartsFrom low fs
    → AscendsFrom low (marks coverage fs)
unfolding marks LinesFrom
marks-AscendsFrom [] fs low h k = AscendsFrom-uncalled low fs k
marks-AscendsFrom ((line, count) ∷ coverage) fs low h k =
    let starts = before-StartsFrom line low fs k in
    let left = (before line fs).1 in
    let here = at_line line left in
    let later = marks coverage here.1 in
    let own = (if count == 0 then line ∷ [] else []) ++ later in
    let rest = marks-AscendsFrom coverage here.1 line h.1.1 (at_line-StartsFrom line left starts) in
    rw (skip_before_lem line left starts) (
      AscendsFrom-before line low fs (uncalled here.0 ++ own) h.0 k
        (AscendsFrom-at_line line left own starts (AscendsFrom-own line count later h.1.0 rest)))

holds-append :
    (xs ys : List ℕ) (line : ℕ) → holds (xs ++ ys) line ≡ (holds xs line || holds ys line)
unfolding holds
holds-append [] ys line = refl
holds-append (x ∷ xs) ys line = ground (arith, holds-append xs ys line)

uncalled-before :
    (line : ℕ) (fs : List Function) (l : ℕ)
    → holds (uncalled fs) l
      ≡ (holds (uncalled ((before line fs).0)) l || holds (uncalled ((before line fs).1)) l)
unfolding before uncalled holds
uncalled-before line [] l = refl
uncalled-before line (f ∷ fs) l = ground (arith, uncalled-before line fs l)

uncalled-at_line :
    (line : ℕ) (fs : List Function) (l : ℕ)
    → holds (uncalled fs) l
      ≡ (holds (uncalled ((at_line line fs).0)) l || holds (uncalled ((at_line line fs).1)) l)
unfolding at_line uncalled holds
uncalled-at_line line [] l = refl
uncalled-at_line line (f ∷ fs) l = ground (arith, uncalled-at_line line fs l)

-- Every line that did not run and every start of a function that was not called is marked.
pub marks-holds :
    (coverage : CoverageMap) (fs : List Function) (low l : ℕ)
    → LinesFrom low coverage
    → StartsFrom low fs
    → (not_run coverage l || holds (uncalled fs) l) ≡ true
    → holds (marks coverage fs) l ≡ true
unfolding marks not_run LinesFrom holds
marks-holds [] fs low l h k e = e
marks-holds ((line, count) ∷ coverage) fs low l h k e =
    let starts = before-StartsFrom line low fs k in
    let left = (before line fs).1 in
    let here = at_line line left in
    let later = marks coverage here.1 in
    let own = if count == 0 then line ∷ [] else [] in
    rw
      (
        skip_before_lem line left starts,
        holds-append (uncalled ((before line fs).0)) (uncalled here.0 ++ (own ++ later)) l,
        holds-append (uncalled here.0) (own ++ later) l,
        holds-append own later l,
      )
      (ground (
        arith,
        e,
        uncalled-before line fs l,
        uncalled-at_line line left l,
        marks-holds coverage here.1 line l h.1.1 (at_line-StartsFrom line left starts),
      ))

-- If the lines with code and the starts of the functions are in ascending order and below 2 ^ 32 - 6,
-- every line that did not run and every start of a function that was not called is in a chunk.
pub find_chunks-covers :
    (coverage : CoverageMap) (functions : List Function) (line : ℕ)
    → LinesFrom 0 coverage
    → StartsFrom 0 functions
    → (not_run coverage line || not_called functions line) ≡ true
    → in_chunks (find_chunks coverage functions) line ≡ true
unfolding find_chunks in_chunks
find_chunks-covers coverage functions line h k e =
    mark_lines-covers (marks coverage functions) [] 0 line
      (marks-AscendsFrom coverage functions 0 h k) refl
      (marks-holds coverage functions 0 line h k
        (ground (arith, e, uncalled-not_called functions line)))

-- If the lines with code and the starts of the functions are in ascending order and below 2 ^ 32 - 6,
-- no chunk ends before it starts, and a chunk starts more than three lines behind the end of the one
-- before it.
pub find_chunks-IsApart :
    (coverage : CoverageMap) (functions : List Function)
    → LinesFrom 0 coverage
    → StartsFrom 0 functions
    → IsApart (find_chunks coverage functions)
unfolding find_chunks IsApart
find_chunks-IsApart coverage functions h k =
    mark_lines-IsApart (marks coverage functions) [] 0 (marks-AscendsFrom coverage functions 0 h k)
      refl refl
