-- ===== src/Ratio/Calc.antt =====
-- `stats::calc`: the percentage of a counter, inside and outside of its bounds.
use native.Mathlib.Nat.{
  div-mul-le_self, lt-div-mul-add, div-lt_iff_lt-mul, mod-lt, one-mul, div-add-mod',
  pow-le-pow_right,
}
use git2_cxx.Base.{ℕ, ◌+◌, ◌-◌, ◌*◌, ◌/◌, ◌%◌, ◌^◌, ◌≤◌, ◌<◌, ◌≡◌, refl, ◌∙◌, arith, some, none}
use git2_cxx.Stats.{Stats}
use git2_cxx.Words.{max_u32, IsU32}
use git2_cxx.Ratio.{Ratio, pow10, calc}
use git2_cxx.Ratio.Power.{mul_mono, pow_pos, pow10_fits, pow10-one_wraps}

-- The hundredfold quotient of visited by relevant, in units of the last digit.
abbrev pub numerator : Stats → ℕ → ℕ
numerator s d = s.visited * 100 * 10 ^ d

-- A ratio in units of its last digit.
abbrev pub units : Ratio ℕ → ℕ
units r = r.whole * 10 ^ r.digits + r.fraction

-- The percentage of `s` to `d` digits, rounded to the nearest, halves up.
pub record IsPercentage (s : Stats) (d : ℕ) (r : Ratio ℕ) : Type 0 where
  pub digits : r.digits ≡ d
  pub fraction : r.fraction < 10 ^ d
  pub at_most : r.whole ≤ 100
  pub above : (r.whole * 10 ^ d + r.fraction) * s.relevant ≤ numerator s d + s.relevant / 2
  pub below :
      numerator s d + s.relevant / 2 < (r.whole * 10 ^ d + r.fraction) * s.relevant + s.relevant

pow-le : (d : ℕ) → d ≤ 9 → 10 ^ d ≤ 10 ^ 9
pow-le d h = pow-le-pow_right (omega arith) h

-- The arithmetic of `calc` over a divider `k`.
module _ (v r k : ℕ) (r_pos : 0 < r) (fits : r ≤ max_u32) (within : v ≤ r)
    (small : v * 100 < 2 ^ 32) (k_pos : 1 ≤ k) (k_le : k ≤ 10 ^ 9) where
  product_fits : v * 100 * k + r / 2 < 2 ^ 64
  product_fits = omega (arith, mul_mono (v * 100) (2 ^ 32 - 1) k (10 ^ 9) (omega arith) k_le)

  rounded_lem : (v * 100 % 2 ^ 32 * k % 2 ^ 64 + r / 2) % 2 ^ 64 / r ≡ (v * 100 * k + r / 2) / r
  rounded_lem =
      let a : v * 100 % 2 ^ 32 ≡ v * 100 = omega arith in
      let b : v * 100 * k % 2 ^ 64 ≡ v * 100 * k = omega (arith, product_fits) in
      let c : (v * 100 * k + r / 2) % 2 ^ 64 ≡ v * 100 * k + r / 2 = omega (arith, product_fits) in
      rw a (rw b (rw c))

  quotient_le : (v * 100 * k + r / 2) / r < 100 * k + 1
  quotient_le =
      (div-lt_iff_lt-mul r_pos).1
        (omega (arith, mul_mono v r (100 * k) (100 * k) within (omega arith)))

  whole-le : (v * 100 * k + r / 2) / r / k ≤ 100
  whole-le =
      let h =
        (div-lt_iff_lt-mul {k = k} {x = (v * 100 * k + r / 2) / r} {y = 101} k_pos).1
          (omega (arith, quotient_le)) in
      omega arith

-- The percentage of a valid counter with something in it, to at most nine digits, is the rounded
-- quotient and at most 100, as long as a hundred times the visited count fits 32 bits.
pub calc_rounds :
    (s : Stats) (d : ℕ)
    → 0 < s.relevant
    → IsU32 s.relevant
    → s.visited ≤ s.relevant
    → s.visited * 100 < 2 ^ 32
    → d ≤ 9
    → (r : Ratio ℕ) × (calc s d ≡ some r) × IsPercentage s d r
unfolding calc
calc_rounds s d r_pos fits within small d_le =
    (record { whole = q / k; fraction = q % k; digits = d }, computed, rounded)
  where
    k : ℕ
    k = 10 ^ d

    q : ℕ
    q = (numerator s d + s.relevant / 2) / s.relevant

    power : pow10 1 d ≡ k
    power = pow10_fits 1 d (omega (arith, pow-le d d_le)) ∙ one-mul k

    whole : q / k ≤ 100
    whole = whole-le s.visited s.relevant k r_pos fits within small (pow_pos d) (pow-le d d_le)

    rest : q % k < k
    rest = mod-lt q (pow_pos d)

    back : q / k * k + q % k ≡ q
    back = div-add-mod' q k

    computed : calc s d ≡ some (record { whole = q / k; fraction = q % k; digits = d })
    computed =
        rw
          (
            power,
            rounded_lem s.visited s.relevant k r_pos fits within small (pow_pos d) (pow-le d d_le),
          )
          (ground (arith, whole, rest, pow_pos d, pow-le d d_le))

    rounded : IsPercentage s d (record { whole = q / k; fraction = q % k; digits = d })
    rounded = record {
      digits = refl;
      fraction = rest;
      at_most = whole;
      above = rw back (div-mul-le_self (numerator s d + s.relevant / 2) s.relevant);
      below = rw back (lt-div-mul-add r_pos);
    }

-- The percentage to no digits of a counter whose n items were all visited, with n at least 42949673
-- and in 32 bits, is below 100: the product by 100 wraps around in 32 bits.
pub calc_full_wraps :
    (n : ℕ)
    → IsU32 n
    → 42949673 ≤ n
    → (r : Ratio ℕ) × (calc (record { relevant = n; visited = n }) 0 ≡ some r) × (r.whole < 100)
unfolding calc
calc_full_wraps n fits many =
    (record { whole = out / n; fraction = 0; digits = 0 }, rw power (ground (arith, low)), low)
  where
    out : ℕ
    out = n * 100 % 2 ^ 32 + n / 2

    power : pow10 1 0 ≡ 1
    power = unfold pow10 in refl

    n_pos : 0 < n
    n_pos = omega arith

    low : out / n < 100
    low = (div-lt_iff_lt-mul n_pos).1 (omega arith)

-- With 64 digits or more the divisor wraps around to zero, and the percentage of any counter with
-- something in it is a division by zero.
pub calc_divides_by_zero : (s : Stats) (d : ℕ) → 0 < s.relevant → 64 ≤ d → calc s d ≡ none
unfolding calc
calc_divides_by_zero s d r_pos h = rw (pow10-one_wraps d h) (ground arith)
