-- ===== src/Chunks/Counts.antt =====
-- The counts of lines in libs/cov-core/src/cvg_info.cc, and the width of a column.
use git2_cxx.Base.{
  ℕ, zero, suc, ◌+◌, ◌-◌, ◌*◌, ◌/◌, ◌%◌, ◌^◌, ◌==◌, ◌<◌, ◌≤◌, max, true, false, List, [], ◌∷◌, ◌++◌,
  Option, none, some, ltb, if◌then◌else◌, length, ◌≡◌, refl, ap, sym, ◌∙◌, arith, Bool-cases, inl,
  inr, length-append, length-replicate, replicate, ltb→lt, ltb→ge,
}
use native.Mathlib.Nat.{pow-succ', pow-zero}
use git2_cxx.Stats.{Coverage}
use git2_cxx.Chunks.{
  CoverageMap, assign, number_lines, from_coverage, count_for, digits_of, column_width,
}

-- A file's lines, each with its count if it has code.
unfoldable pub lines_of : List Coverage → List (Option ℕ)
lines_of [] = []
lines_of (c ∷ cs) =
    if c.is_null then replicate c.value none ++ lines_of cs else some c.value ∷ lines_of cs

unfoldable pub nth : List (Option ℕ) → ℕ → Option ℕ
nth [] n = none
nth (x ∷ xs) zero = x
nth (x ∷ xs) (suc n) = nth xs n

count_for-assign :
    (line count : ℕ) (coverage : CoverageMap) (m : ℕ)
    → count_for (assign line count coverage) m
      ≡ (if line == m then some count else count_for coverage m)
unfolding assign count_for
count_for-assign line count [] m = refl
count_for-assign line count ((other, old) ∷ coverage) m =
    ground (arith, count_for-assign line count coverage m)

pub nth-blank :
    (v : ℕ) (xs : List (Option ℕ)) (n : ℕ) → n < v → nth (replicate v none ++ xs) n ≡ none
unfolding nth
nth-blank zero xs n h = absurd (omega arith)
nth-blank (suc v) xs zero h = refl
nth-blank (suc v) xs (suc n) h = nth-blank v xs n (omega arith)

pub nth-behind :
    (v : ℕ) (xs : List (Option ℕ)) (n : ℕ) → nth (replicate v none ++ xs) (v + n) ≡ nth xs n
unfolding nth
nth-behind zero xs n = ap (nth xs) (omega arith)
nth-behind (suc v) xs n =
    let one_more : suc v + n ≡ suc (v + n) = omega arith in rw one_more (nth-behind v xs n)

lines_of-null :
    (c : Coverage) (cs : List Coverage)
    → c.is_null ≡ true
    → length (lines_of (c ∷ cs)) ≡ c.value + length (lines_of cs)
unfolding lines_of
lines_of-null c cs h = rw h (
    length-append (replicate {A = Option ℕ} c.value none) (lines_of cs)
    ∙ ap (λ n. n + length (lines_of cs)) (length-replicate c.value none))

lines_of-code :
    (c : Coverage) (cs : List Coverage)
    → c.is_null ≡ false
    → length (lines_of (c ∷ cs)) ≡ suc (length (lines_of cs))
unfolding lines_of
lines_of-code c cs h = rw h refl

-- The lines that are numbered later leave the earlier ones.
number_lines-past :
    (cs : List Coverage) (line : ℕ) (coverage : CoverageMap) (m : ℕ)
    → line + length (lines_of cs) < 2 ^ 32
    → m ≤ line
    → count_for (number_lines cs line coverage) m ≡ count_for coverage m
unfolding number_lines
number_lines-past [] line coverage m h k = refl
number_lines-past (c ∷ cs) line coverage m h k = elim (Bool-cases c.is_null) [
  | inl e ↦
      let size = lines_of-null c cs e in
      let wrap : (line + c.value) % 2 ^ 32 ≡ line + c.value = omega (arith, size) in
      rw (e, wrap)
        (number_lines-past cs (line + c.value) coverage m (omega (arith, size)) (omega arith))
  | inr e ↦
      let size = lines_of-code c cs e in
      let wrap : (line + 1) % 2 ^ 32 ≡ line + 1 = omega (arith, size) in
      let other : (line + 1 == m) ≡ false = ground arith in
      rw (e, wrap)
        (number_lines-past cs (line + 1) (assign (line + 1) c.value coverage) m
            (omega (arith, size)) (omega arith)
          ∙ count_for-assign (line + 1) c.value coverage m
          ∙ rw other refl)
]

-- Lines without code, in front of lines that are numbered as they should be.
blank_lines :
    (cs : List Coverage) (line v : ℕ) (coverage : CoverageMap) (m : ℕ)
    → line + v + length (lines_of cs) < 2 ^ 32
    → count_for coverage (line + suc m) ≡ none
    → ((j : ℕ)
        → count_for coverage (line + v + suc j) ≡ none
        → count_for (number_lines cs (line + v) coverage) (line + v + suc j) ≡ nth (lines_of cs) j)
    → count_for (number_lines cs (line + v) coverage) (line + suc m)
      ≡ nth (replicate v none ++ lines_of cs) m
blank_lines cs line v coverage m h k later = elim (Bool-cases (ltb m v)) [
  | inl e ↦
      number_lines-past cs (line + v) coverage (line + suc m) h (omega (arith, ltb→lt m v e))
      ∙ k
      ∙ sym (nth-blank v (lines_of cs) m (ltb→lt m v e))
  | inr e ↦
      let key : line + suc m ≡ line + v + suc (m - v) = omega (arith, ltb→ge m v e) in
      let behind : v + (m - v) ≡ m = omega (arith, ltb→ge m v e) in
      ap (count_for (number_lines cs (line + v) coverage)) key
      ∙ later (m - v) (ap (count_for coverage) (sym key) ∙ k)
      ∙ sym (nth-behind v (lines_of cs) (m - v))
      ∙ ap (nth (replicate v none ++ lines_of cs)) behind
]

-- A line with code, in front of lines that are numbered as they should be.
numbered :
    (cs : List Coverage) (line v : ℕ) (coverage : CoverageMap) (m : ℕ)
    → line + 1 + length (lines_of cs) < 2 ^ 32
    → ((j : ℕ)
        → count_for (number_lines cs (line + 1) (assign (line + 1) v coverage)) (line + 1 + suc j)
          ≡ nth (lines_of cs) j)
    → count_for (number_lines cs (line + 1) (assign (line + 1) v coverage)) (line + suc m)
      ≡ nth (some v ∷ lines_of cs) m
unfolding nth
numbered cs line v coverage zero h later =
    let same : (line + 1 == line + 1) ≡ true = ground arith in
    number_lines-past cs (line + 1) (assign (line + 1) v coverage) (line + 1) h (omega arith)
    ∙ count_for-assign (line + 1) v coverage (line + 1)
    ∙ rw same refl
numbered cs line v coverage (suc m) h later =
    ap (count_for (number_lines cs (line + 1) (assign (line + 1) v coverage))) (omega arith)
    ∙ later m

number_lines-future :
    (cs : List Coverage) (line : ℕ) (coverage : CoverageMap) (m : ℕ)
    → line + length (lines_of cs) < 2 ^ 32
    → ((j : ℕ) → count_for coverage (line + suc j) ≡ none)
    → count_for (number_lines cs line coverage) (line + suc m) ≡ nth (lines_of cs) m
unfolding number_lines lines_of nth
number_lines-future [] line coverage m h k = k m
number_lines-future (c ∷ cs) line coverage m h k = elim (Bool-cases c.is_null) [
  | inl e ↦
      let size = lines_of-null c cs e in
      let wrap : (line + c.value) % 2 ^ 32 ≡ line + c.value = omega (arith, size) in
      let beyond : (j : ℕ) → count_for coverage (line + c.value + suc j) ≡ none =
        λ j. ap (count_for coverage) (omega arith) ∙ k (c.value + j) in
      rw (e, wrap)
        (blank_lines cs line c.value coverage m (omega (arith, size)) (k m) (λ j free.
          number_lines-future cs (line + c.value) coverage j (omega (arith, size)) beyond))
  | inr e ↦
      let size = lines_of-code c cs e in
      let wrap : (line + 1) % 2 ^ 32 ≡ line + 1 = omega (arith, size) in
      let put = assign (line + 1) c.value coverage in
      let beyond : (j : ℕ) → count_for put (line + 1 + suc j) ≡ none = λ j.
        let other : (line + 1 == line + 1 + suc j) ≡ false = ground arith in
        count_for-assign (line + 1) c.value coverage (line + 1 + suc j)
        ∙ rw other (ap (count_for coverage) (omega arith) ∙ k (suc j)) in
      rw (e, wrap)
        (numbered cs line c.value coverage m (omega (arith, size))
          (λ j. number_lines-future cs (line + 1) put j (omega (arith, size)) beyond))
]

-- In a file of fewer than 2 ^ 32 lines, a line has the count that it has in the coverage, where the lines
-- are counted from one, and no count if it has no code or is behind the last line.
pub count_for-from_coverage :
    (cs : List Coverage) (n : ℕ)
    → length (lines_of cs) < 2 ^ 32
    → count_for (from_coverage cs) (suc n) ≡ nth (lines_of cs) n
unfolding from_coverage count_for
count_for-from_coverage cs n h =
    let first : 0 + suc n ≡ suc n = omega arith in
    ap (count_for (number_lines cs 0 [])) (sym first)
    ∙ number_lines-future cs 0 [] n (omega arith) (λ j. refl)

digits_of-lt : (fuel num : ℕ) → num ≤ fuel → num < 10 ^ digits_of fuel num
unfolding digits_of
digits_of-lt zero num h = rw (pow-zero 10) (omega arith)
digits_of-lt (suc fuel) num h = elim (Bool-cases (num == 0)) [
  | inl e ↦ rw (e, pow-zero 10) (ground (arith, e))
  | inr e ↦
      let positive : 1 ≤ num = ground (arith, e) in
      rw (e, pow-succ' 10 (digits_of fuel (num / 10)))
        (omega (arith, digits_of-lt fuel (num / 10) (omega arith)))
]

digits_of-none : (fuel : ℕ) → digits_of fuel 0 ≡ 0
unfolding digits_of
digits_of-none zero = refl
digits_of-none (suc fuel) = refl

digits_of-le : (fuel num : ℕ) → num ≤ fuel → 1 ≤ num → 10 ^ digits_of fuel num ≤ num * 10
unfolding digits_of
digits_of-le zero num h k = absurd (omega arith)
digits_of-le (suc fuel) num h k =
    let nonzero : (num == 0) ≡ false = ground arith in
    rw (nonzero, pow-succ' 10 (digits_of fuel (num / 10)))
      (elim (Bool-cases (num / 10 == 0)) [
        | inl e ↦
            let none_left : num / 10 ≡ 0 = ground (arith, e) in
            let none_after : digits_of fuel (num / 10) ≡ 0 =
              ap (digits_of fuel) none_left ∙ digits_of-none fuel in
            let one : 10 ^ digits_of fuel (num / 10) ≡ 10 ^ 0 = ap (λ (n : ℕ). 10 ^ n) none_after in
            omega (arith, one, pow-zero 10)
        | inr e ↦
            let left : 1 ≤ num / 10 = ground (arith, e) in
            omega (arith, digits_of-le fuel (num / 10) (omega arith) left)
      ])

-- The width of a number is the number of its decimal digits, of which zero has one.
pub column_width_lem :
    (num : ℕ) → (num < 10 ^ column_width num) × (10 ^ column_width num ≤ max num 1 * 10)
unfolding column_width
column_width_lem num = elim (Bool-cases (num == 0)) [
  | inl e ↦ let nothing : num ≡ 0 = ground (arith, e) in rw e (omega (arith, nothing), omega arith)
  | inr e ↦ rw e (
    digits_of-lt num num (omega arith),
    omega (arith, digits_of-le num num (omega arith) (ground (arith, e))),
  )
]
