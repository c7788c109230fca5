-- ===== src/Ratio.antt =====
-- libs/cov-api/include/cov/io/types.hh: percentages as a whole part and a fraction of `digits`
-- decimal digits. `std::uintmax_t` is 64 bits wide, `unsigned` is 32.
pub mod Power
pub mod Calc
pub mod Compare
pub mod Diff
pub mod Examples
use Prim.Native.Nat.{compare, Ordering}
use git2_cxx.Base.{
  ℕ, zero, suc, ◌+◌, ◌-◌, ◌*◌, ◌/◌, ◌%◌, ◌^◌, ◌==◌, ◌&&◌, not, Bool, true, false, Option, none,
  some, min, max, ltb, if◌then◌else◌,
}
use mathlib.Core.Bool.{xor}
use git2_cxx.Base.Int.{ℤ, pos, neg_ℤ, ltb_ℤ, eqb_ℤ, compare_ℤ, signed32, signed64, ◌*ℤ◌}
use git2_cxx.Stats.{Stats}

pub record Ratio (A : Type 0) : Type 0 where
  pub whole : A
  pub fraction : A
  pub digits : ℕ

-- The loop of `pow10`, by its counter.
pub pow10_loop : ℕ → ℕ → ℕ
pow10_loop value zero = value
pow10_loop value (suc digits) = pow10_loop (value * 10 % 2 ^ 64) digits

unfoldable pub pow10 : ℕ → ℕ → ℕ
unfolding pow10_loop
pow10 value digits = if value == 0 then value else pow10_loop value digits

-- `visited * 100` is a product of a `uint32_t` and an `int`, so it wraps at 2 ^ 32; what follows is
-- in 64 bits. `none` is the division by a zero divider.
unfoldable pub calc : Stats → ℕ → Option (Ratio ℕ)
calc s digits =
    let divider = pow10 1 digits in
    let out = (s.visited * 100 % 2 ^ 32 * divider) % 2 ^ 64 in
    let rounded = (out + s.relevant / 2) % 2 ^ 64 / s.relevant in
    if s.relevant == 0
    then some (record { whole = 0; fraction = 0; digits = digits })
    else if divider == 0
    then none
    else some (record {
      whole = rounded / divider % 2 ^ 32;
      fraction = rounded % divider % 2 ^ 32;
      digits = digits;
    })

-- The fraction at the finer of two scales: `fraction *= pow10(1, level)` in 64 bits.
unfoldable pub scaled : ℕ → ℕ → ℕ → ℕ
scaled fraction digits other =
    if ltb digits other then fraction * pow10 1 (other - digits) % 2 ^ 64 else fraction

-- `operator<=>` and `operator==` at `unsigned`.
unfoldable pub compare_ratio : Ratio ℕ → Ratio ℕ → Ordering
compare_ratio l r = elim (compare l.whole r.whole) [
  | Ordering.eq ↦
      compare (scaled l.fraction l.digits r.digits) (scaled r.fraction r.digits l.digits)
  | other ↦ other
]

unfoldable pub eq_ratio : Ratio ℕ → Ratio ℕ → Bool
eq_ratio l r =
    if l.whole == r.whole
    then scaled l.fraction l.digits r.digits == scaled r.fraction r.digits l.digits
    else false

-- The same at `int`. The signed product does not wrap: where it leaves 64 bits the source's is
-- undefined.
unfoldable pub scaled_int : ℤ → ℕ → ℕ → ℤ
scaled_int fraction digits other =
    if ltb digits other then fraction *ℤ signed64 (pow10 1 (other - digits)) else fraction

is_neg : ℤ → Bool
is_neg a = ltb_ℤ a (pos 0)

unfoldable pub compare_ratio_int : Ratio ℤ → Ratio ℤ → Ordering
unfolding is_neg
compare_ratio_int l r = elim (compare_ℤ l.whole r.whole) [
  | Ordering.eq ↦
      if xor (is_neg l.fraction) (is_neg r.fraction)
      then compare_ℤ l.fraction r.fraction
      else compare_ℤ (scaled_int l.fraction l.digits r.digits)
          (scaled_int r.fraction r.digits l.digits)
  | other ↦ other
]

unfoldable pub eq_ratio_int : Ratio ℤ → Ratio ℤ → Bool
unfolding is_neg
eq_ratio_int l r =
    if not (eqb_ℤ l.whole r.whole)
    then false
    else if xor (is_neg l.fraction) (is_neg r.fraction)
    then false
    else eqb_ℤ (scaled_int l.fraction l.digits r.digits) (scaled_int r.fraction r.digits l.digits)

-- `diff` of two ratios: both values in units of the finer scale, then the parts of the distance.
-- `none` is the division by a zero multiplier; the parts are cast to `int`.
unfoldable pub diff_ratio : Ratio ℕ → Ratio ℕ → Option (Ratio ℤ)
diff_ratio newer older =
    let digits = max newer.digits older.digits in
    let multiplier = pow10 1 digits in
    let newer_back = (pow10 newer.whole newer.digits + newer.fraction) % 2 ^ 64 in
    let newer_val = pow10 newer_back (digits - newer.digits) in
    let older_back = (pow10 older.whole older.digits + older.fraction) % 2 ^ 64 in
    let older_val = pow10 older_back (digits - older.digits) in
    let neg = ltb newer_val older_val in
    let abs = min (if neg then older_val - newer_val else newer_val - older_val) (2 ^ 63 - 1) in
    let ret = signed32 (abs / multiplier) in
    let fraction = signed32 (abs % multiplier) in
    if multiplier == 0
    then none
    else some (record {
      whole = if neg then neg_ℤ ret else ret;
      fraction = if neg && eqb_ℤ ret (pos 0) then neg_ℤ fraction else fraction;
      digits = digits;
    })
