-- ===== src/Ratio/Compare.antt =====
-- `ratio::operator<=>` and the order of the values.
use Prim.Native.Nat.{compare, Ordering}
use native.Mathlib.Nat.{pow-le-pow_right, one-mul, mod-eq_of_lt, pow-zero, mul_assoc}
use mathlib.Core.Path.{ap₂}
use git2_cxx.Base.{
  ℕ, ◌+◌, ◌-◌, ◌*◌, ◌^◌, ◌≤◌, ◌<◌, ◌≡◌, ap, sym, ◌∙◌, arith, Bool-cases, inl, inr, ltb,
  if◌then◌else◌, tests, max, ◌||◌, ◌⊎◌,
}
use git2_cxx.Base.Int.{ℤ, pos, negsuc, pos_part, neg_part, neg_ℕ, ltb_ℤ, ◌<ℤ◌}
use git2_cxx.Ratio.{Ratio, pow10, scaled, scaled_int, compare_ratio, compare_ratio_int}
use git2_cxx.Ratio.Power.{pow_pos, pow10_fits, mul_mono, pow-add}

-- A ratio as `calc` makes it: the fraction is below one, and the digits fit 64 bits.
pub record IsProper (r : Ratio ℕ) : Type 0 where
  pub below_one : r.fraction < 10 ^ r.digits
  pub digits : r.digits ≤ 19

-- The value of a ratio in units of the last of `d` digits.
abbrev pub at_scale : Ratio ℕ → ℕ → ℕ
at_scale r d = (r.whole * 10 ^ r.digits + r.fraction) * 10 ^ (d - r.digits)

pow_top : (d : ℕ) → d ≤ 19 → 10 ^ d ≤ 10 ^ 19
pow_top d h = pow-le-pow_right (omega arith) h

compare_lt : (a b : ℕ) → a < b → compare a b ≡ Ordering.lt
compare_lt a b h = ground arith

compare_gt : (a b : ℕ) → b < a → compare a b ≡ Ordering.gt
compare_gt a b h = ground arith

compare_self : (a : ℕ) → compare a a ≡ Ordering.eq
compare_self a = ground arith

compare_add : (a x y : ℕ) → compare (a + x) (a + y) ≡ compare x y
compare_add a x y = ground arith

abbrev pub lexicographic : Ordering → Ordering → Ordering
lexicographic first second = elim first [ Ordering.eq ↦ second | other ↦ other ]

-- Numbers in a base `p` compare by their leading parts first.
compare_base :
    (a b x y p : ℕ)
    → x < p
    → y < p
    → compare (a * p + x) (b * p + y) ≡ lexicographic (compare a b) (compare x y)
compare_base a b x y p hx hy = elim (lt_cases a b) [
  | inl less ↦
      rw (compare_lt a b less)
        (compare_lt _ _ (omega (arith, mul_mono (a + 1) b p p (omega arith) (omega arith))))
  | inr (inl same) ↦ rw (same, compare_self b) (compare_add (b * p) x y)
  | inr (inr more) ↦
      rw (compare_gt a b more)
        (compare_gt _ _ (omega (arith, mul_mono (b + 1) a p p (omega arith) (omega arith))))
]
  where
    lt_cases : (m n : ℕ) → (m < n) ⊎ ((m ≡ n) ⊎ (n < m))
    lt_cases m n = grind arith

-- The source's scaling of a fraction is exact for a proper ratio.
scaled_lem :
    (r : Ratio ℕ) (o : ℕ)
    → IsProper r
    → o ≤ 19
    → (scaled r.fraction r.digits o ≡ r.fraction * 10 ^ (max r.digits o - r.digits))
      × (r.fraction * 10 ^ (max r.digits o - r.digits) < 10 ^ max r.digits o)
unfolding scaled
scaled_lem r o p h = (scaling, bound)
  where
    k : ℕ
    k = max r.digits o - r.digits

    split : 10 ^ max r.digits o ≡ 10 ^ r.digits * 10 ^ k
    split =
        let e : max r.digits o ≡ r.digits + k = omega arith in
        ap (λ (t : ℕ). 10 ^ t) e ∙ pow-add r.digits k

    bound : r.fraction * 10 ^ k < 10 ^ max r.digits o
    bound = omega (
      arith,
      split,
      pow_pos k,
      mul_mono (r.fraction + 1) (10 ^ r.digits) (10 ^ k) (10 ^ k) (omega arith) (omega arith),
    )

    top : 10 ^ max r.digits o ≤ 10 ^ 19
    top = pow_top (max r.digits o) (omega (arith, p.digits))

    exact : pow10 1 k ≡ 10 ^ k
    exact = pow10_fits 1 k (omega (arith, pow_top k (omega (arith, p.digits)))) ∙ one-mul (10 ^ k)

    scaling : scaled r.fraction r.digits o ≡ r.fraction * 10 ^ k
    scaling = elim (Bool-cases (ltb r.digits o)) [
      | inl finer ↦
          let e : o - r.digits ≡ k = omega tests in
          rw (finer, e, exact) (mod-eq_of_lt (omega (arith, bound, top)))
      | inr same ↦
          let e : k ≡ 0 = omega tests in
          rw (same, e) (omega (arith, ap (λ (t : ℕ). r.fraction * t) (pow-zero 10)))
    ]

pub at_scale_lem :
    (r : Ratio ℕ) (o : ℕ)
    → at_scale r (max r.digits o)
      ≡ r.whole * 10 ^ max r.digits o + r.fraction * 10 ^ (max r.digits o - r.digits)
at_scale_lem r o =
    let k : ℕ = max r.digits o - r.digits in
    let e : max r.digits o ≡ r.digits + k = omega arith in
    let split : 10 ^ max r.digits o ≡ 10 ^ r.digits * 10 ^ k =
      ap (λ (t : ℕ). 10 ^ t) e ∙ pow-add r.digits k in
    omega (arith, ap (λ (t : ℕ). r.whole * t) split, mul_assoc r.whole (10 ^ r.digits) (10 ^ k))

-- The order of proper ratios is the order of their values.
pub compare_ratio_lem :
    (l r : Ratio ℕ)
    → IsProper l
    → IsProper r
    → let d = max l.digits r.digits in compare_ratio l r ≡ compare (at_scale l d) (at_scale r d)
unfolding compare_ratio
compare_ratio_lem l r p q =
    ap₂ (λ x y. lexicographic (compare l.whole r.whole) (compare x y)) sl.0 sr.0
    ∙ sym (compare_base l.whole r.whole _ _ (10 ^ d) sl.1 sr.1)
    ∙ ap₂ (λ x y. compare x y) (sym (at_scale_lem l r.digits)) (sym far)
  where
    d : ℕ
    d = max l.digits r.digits

    e : max r.digits l.digits ≡ d
    e = omega arith

    sl :
        (scaled l.fraction l.digits r.digits ≡ l.fraction * 10 ^ (d - l.digits))
        × (l.fraction * 10 ^ (d - l.digits) < 10 ^ d)
    sl = scaled_lem l r.digits p q.digits

    sr :
        (scaled r.fraction r.digits l.digits ≡ r.fraction * 10 ^ (d - r.digits))
        × (r.fraction * 10 ^ (d - r.digits) < 10 ^ d)
    sr = rw e at (scaled_lem r l.digits q p.digits)

    far : at_scale r d ≡ r.whole * 10 ^ d + r.fraction * 10 ^ (d - r.digits)
    far = rw e at (at_scale_lem r l.digits)

-- The order of two negative ratios with one whole part is the reverse of the order of their values.
abbrev pub magnitude : Ratio ℤ → ℕ
magnitude r =
    (pos_part r.whole + neg_part r.whole) * 10 ^ r.digits
    + (pos_part r.fraction + neg_part r.fraction)

-- The value of a ratio as `diff` makes it: negative if its whole part or its fraction is.
abbrev pub signed_units : Ratio ℤ → ℤ
signed_units r =
    if ltb_ℤ r.whole (pos 0) || ltb_ℤ r.fraction (pos 0)
    then neg_ℕ (magnitude r)
    else pos (magnitude r)

pub compare_ratio_int_reversed :
    (w f g d : ℕ)
    → f < g
    → let l : Ratio ℤ = record { whole = negsuc w; fraction = pos f; digits = d } in
      let r : Ratio ℤ = record { whole = negsuc w; fraction = pos g; digits = d } in
      (compare_ratio_int l r ≡ Ordering.lt) × (signed_units r <ℤ signed_units l)
unfolding compare_ratio_int scaled_int
compare_ratio_int_reversed w f g d h = (ground arith, ground arith)
