-- ===== src/Ratio/Diff.antt =====
-- `diff` of two ratios and the difference of their values.
use native.Mathlib.Nat.{
  one-mul, mod-eq_of_lt, mod-lt, div-lt_iff_lt-mul, div-add-mod', mul_assoc, pow-le-pow_right,
}
use git2_cxx.Base.{
  ℕ, zero, suc, ◌+◌, ◌-◌, ◌*◌, ◌/◌, ◌%◌, ◌^◌, ◌≤◌, ◌<◌, ◌≡◌, refl, ap, ◌∙◌, arith, Bool-cases, inl,
  inr, some, ltb, if◌then◌else◌, tests, min, max, ◌&&◌,
}
use git2_cxx.Base.Int.{ℤ, pos, sub_ℕ, neg_ℤ, eqb_ℤ, signed32}
use git2_cxx.Ratio.{Ratio, pow10, diff_ratio}
use git2_cxx.Ratio.Power.{pow_pos, pow10_fits, mul_mono, pow-add}
use git2_cxx.Ratio.Compare.{at_scale, signed_units}

-- A ratio whose parts fit an `int`: the fraction is below one, and there are at most nine digits.
pub record IsSmall (r : Ratio ℕ) : Type 0 where
  pub below_one : r.fraction < 10 ^ r.digits
  pub digits : r.digits ≤ 9
  pub whole : r.whole < 2 ^ 31

pow_nine : (d : ℕ) → d ≤ 9 → 10 ^ d ≤ 10 ^ 9
pow_nine d h = pow-le-pow_right (omega arith) h

-- The value at a scale of `m` is computed without wrapping around.
module _ (r : Ratio ℕ) (m : ℕ) (p : IsSmall r) (le : r.digits ≤ m) (m_le : m ≤ 9) where
  split : 10 ^ m ≡ 10 ^ r.digits * 10 ^ (m - r.digits)
  split =
      let e : m ≡ r.digits + (m - r.digits) = omega arith in
      ap (λ (t : ℕ). 10 ^ t) e ∙ pow-add r.digits (m - r.digits)

  back-lt : r.whole * 10 ^ r.digits + r.fraction < 2 ^ 31 * 10 ^ r.digits
  back-lt = omega (
    arith,
    p.below_one,
    mul_mono (r.whole + 1) (2 ^ 31) (10 ^ r.digits) (10 ^ r.digits) (omega (arith, p.whole))
        (omega arith),
  )

  at_scale-lt : at_scale r m < 2 ^ 31 * 10 ^ m
  at_scale-lt = omega (
    arith,
    pow_pos (m - r.digits),
    ap (λ (t : ℕ). 2 ^ 31 * t) split,
    mul_assoc (2 ^ 31) (10 ^ r.digits) (10 ^ (m - r.digits)),
    mul_mono (r.whole * 10 ^ r.digits + r.fraction + 1) (2 ^ 31 * 10 ^ r.digits)
        (10 ^ (m - r.digits)) (10 ^ (m - r.digits)) (omega (arith, back-lt)) (omega arith),
  )

  value_lem : pow10 ((pow10 r.whole r.digits + r.fraction) % 2 ^ 64) (m - r.digits) ≡ at_scale r m
  value_lem =
      let small : 10 ^ r.digits ≤ 10 ^ 9 = pow_nine r.digits p.digits in
      let e : pow10 r.whole r.digits ≡ r.whole * 10 ^ r.digits =
        pow10_fits r.whole r.digits (omega (arith, back-lt)) in
      let wrap : (r.whole * 10 ^ r.digits + r.fraction) % 2 ^ 64
          ≡ r.whole * 10 ^ r.digits + r.fraction =
        mod-eq_of_lt (omega (arith, back-lt)) in
      rw e (rw wrap (pow10_fits _ _ (omega (arith, at_scale-lt, pow_nine m m_le))))

-- The parts of the distance of `a` and `b`, put together as the source does.
parts_of : ℕ → ℕ → ℕ → ℕ → Ratio ℤ
parts_of a b k d =
    let neg = ltb a b in
    let abs = min (if neg then b - a else a - b) (2 ^ 63 - 1) in
    let ret = signed32 (abs / k) in
    let fraction = signed32 (abs % k) in
    record {
      whole = if neg then neg_ℤ ret else ret;
      fraction = if neg && eqb_ℤ ret (pos 0) then neg_ℤ fraction else fraction;
      digits = d;
    }

units_pos :
    (q f d : ℕ)
    → signed_units (record { whole = pos q; fraction = pos f; digits = d }) ≡ pos (q * 10 ^ d + f)
units_pos q f d = ground arith

units_neg :
    (q f d : ℕ)
    → 0 < q * 10 ^ d + f
    → signed_units (record {
      whole = neg_ℤ (pos q);
      fraction = if eqb_ℤ (pos q) (pos 0) then neg_ℤ (pos f) else pos f;
      digits = d;
    })
      ≡ sub_ℕ 0 (q * 10 ^ d + f)
units_neg zero f d h = ground arith
units_neg (suc q) f d h = ground arith

-- The parts of a distance `v` fit an `int`, and make it up again.
module _ (v d : ℕ) (d_le : d ≤ 9) (v_lt : v < 2 ^ 31 * 10 ^ d) where
  top : 10 ^ d ≤ 10 ^ 9
  top = pow_nine d d_le

  whole_fits : signed32 (v / 10 ^ d) ≡ pos (v / 10 ^ d)
  whole_fits = let h : v / 10 ^ d < 2 ^ 31 = (div-lt_iff_lt-mul (pow_pos d)).1 v_lt in ground arith

  fraction_fits : signed32 (v % 10 ^ d) ≡ pos (v % 10 ^ d)
  fraction_fits = let h : v % 10 ^ d < 10 ^ d = mod-lt v (pow_pos d) in ground (arith, top)

  held : min v (2 ^ 63 - 1) ≡ v
  held = omega (arith, top)

  together : v / 10 ^ d * 10 ^ d + v % 10 ^ d ≡ v
  together = div-add-mod' v (10 ^ d)

parts_lem :
    (a b d : ℕ)
    → d ≤ 9
    → a < 2 ^ 31 * 10 ^ d
    → b < 2 ^ 31 * 10 ^ d
    → signed_units (parts_of a b (10 ^ d) d) ≡ sub_ℕ a b
unfolding parts_of
parts_lem a b d h ha hb = elim (Bool-cases (ltb a b)) [
  | inl less ↦
      let v : ℕ = b - a in
      let v_lt : v < 2 ^ 31 * 10 ^ d = omega arith in
      rw (less, held v d h v_lt, whole_fits v d h v_lt, fraction_fits v d h v_lt)
        (units_neg (v / 10 ^ d) (v % 10 ^ d) d (omega (tests, together v d h v_lt))
          ∙ rw (together v d h v_lt) (ground arith))
  | inr more ↦
      let v : ℕ = a - b in
      let v_lt : v < 2 ^ 31 * 10 ^ d = omega arith in
      rw (more, held v d h v_lt, whole_fits v d h v_lt, fraction_fits v d h v_lt)
        (units_pos (v / 10 ^ d) (v % 10 ^ d) d ∙ rw (together v d h v_lt) (ground arith))
]

-- The difference of two ratios that fit an `int` has the exact difference of their values, in units
-- of the finer scale of the two.
pub diff_ratio_lem :
    (newer older : Ratio ℕ)
    → IsSmall newer
    → IsSmall older
    → let d = max newer.digits older.digits in
      (r : Ratio ℤ) × (diff_ratio newer older ≡ some r)
      × (r.digits ≡ d)
      × (signed_units r ≡ sub_ℕ (at_scale newer d) (at_scale older d))
unfolding diff_ratio parts_of
diff_ratio_lem newer older p q =
    let d : ℕ = max newer.digits older.digits in
    let d_le : d ≤ 9 = omega (arith, p.digits, q.digits) in
    let top : 10 ^ d ≤ 10 ^ 9 = pow_nine d d_le in
    let one : pow10 1 d ≡ 10 ^ d = pow10_fits 1 d (omega arith) ∙ one-mul (10 ^ d) in
    let le_n : newer.digits ≤ d = omega arith in
    let le_o : older.digits ≤ d = omega arith in
    (
      parts_of (at_scale newer d) (at_scale older d) (10 ^ d) d,
      rw (one, value_lem newer d p le_n d_le, value_lem older d q le_o d_le)
          (ground (arith, pow_pos d)),
      refl,
      parts_lem (at_scale newer d) (at_scale older d) d d_le (at_scale-lt newer d p le_n d_le)
          (at_scale-lt older d q le_o d_le),
    )
