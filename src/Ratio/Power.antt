-- ===== src/Ratio/Power.antt =====
-- Powers of ten in 64 bits.
use native.Mathlib.Nat.{pow-succ', pow-zero, mul_assoc, le-mul_of_pos_right, mul-le-mul}
use git2_cxx.Base.{
  ℕ, zero, suc, ◌+◌, ◌-◌, ◌*◌, ◌%◌, ◌^◌, ◌≤◌, ◌<◌, ◌≡◌, refl, ap, sym, ◌∙◌, arith, ◌==◌, Bool-cases,
  inl, inr,
}
use git2_cxx.Ratio.{pow10, pow10_loop}

pub mul_mono : (a b c d : ℕ) → a ≤ b → c ≤ d → a * c ≤ b * d
mul_mono a b c d h k = mul-le-mul h k

pub pow_pos : (d : ℕ) → 1 ≤ 10 ^ d
pow_pos zero = omega (arith, pow-zero 10)
pow_pos (suc d) = omega (arith, pow-succ' 10 d, pow_pos d)

pub pow-add : (a b : ℕ) → 10 ^ (a + b) ≡ 10 ^ a * 10 ^ b
pow-add zero b =
    let e : zero + b ≡ b = omega arith in
    rw e (omega (arith, ap (λ (t : ℕ). t * 10 ^ b) (pow-zero 10)))
pow-add (suc a) b =
    let e : suc a + b ≡ suc (a + b) = omega arith in
    rw e (
      pow-succ' 10 (a + b)
      ∙ ap (λ (t : ℕ). 10 * t) (pow-add a b)
      ∙ sym (mul_assoc 10 (10 ^ a) (10 ^ b))
      ∙ ap (λ (t : ℕ). t * 10 ^ b) (sym (pow-succ' 10 a)))

le-mul_pow : (v d : ℕ) → v ≤ v * 10 ^ d
le-mul_pow v d = le-mul_of_pos_right v (pow_pos d)

loop_fits : (d v : ℕ) → v * 10 ^ d < 2 ^ 64 → pow10_loop v d ≡ v * 10 ^ d
unfolding pow10_loop
loop_fits zero v h = omega (arith, ap (λ (t : ℕ). v * t) (pow-zero 10))
loop_fits (suc d) v h =
    let e : v * 10 ^ suc d ≡ v * 10 * 10 ^ d =
      ap (λ (t : ℕ). v * t) (pow-succ' 10 d) ∙ sym (mul_assoc v 10 (10 ^ d)) in
    let small : v * 10 * 10 ^ d < 2 ^ 64 = omega arith in
    let low : v * 10 < 2 ^ 64 = omega (arith, le-mul_pow (v * 10) d) in
    let wrap : v * 10 % 2 ^ 64 ≡ v * 10 = omega arith in
    rw wrap (loop_fits d (v * 10) small ∙ sym e)

-- The power is exact wherever the true product fits 64 bits.
pub pow10_fits : (v d : ℕ) → v * 10 ^ d < 2 ^ 64 → pow10 v d ≡ v * 10 ^ d
unfolding pow10
pow10_fits v d h = elim (Bool-cases (v == 0)) [
  | inl e ↦ rw e (let z : v ≡ 0 = ground arith in rw z (omega arith))
  | inr e ↦ rw e (loop_fits d v h)
]

loop-zero : (d : ℕ) → pow10_loop 0 d ≡ 0
unfolding pow10_loop
loop-zero zero = refl
loop-zero (suc d) = loop-zero d

loop-add : (a b v : ℕ) → pow10_loop v (a + b) ≡ pow10_loop (pow10_loop v a) b
unfolding pow10_loop
loop-add zero b v = let e : zero + b ≡ b = omega arith in ap (pow10_loop v) e
loop-add (suc a) b v =
    let e : suc a + b ≡ suc (a + b) = omega arith in rw e (loop-add a b (v * 10 % 2 ^ 64))

-- From 64 digits on the divisor of a percentage is 2 ^ 64 times a number, which is zero.
pub pow10-one_wraps : (d : ℕ) → 64 ≤ d → pow10 1 d ≡ 0
unfolding pow10
pow10-one_wraps d h =
    let e : d ≡ 64 + (d - 64) = omega arith in
    rw e (loop-add 64 (d - 64) 1 ∙ unfold pow10_loop in loop-zero (d - 64))
