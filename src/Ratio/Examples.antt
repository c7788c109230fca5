-- ===== src/Ratio/Examples.antt =====
-- Tests of the percentages, and the theorems about them at concrete values.
use git2_cxx.Base.{ℕ, ◌<◌, none, some, ◌≡◌, refl, arith}
use Prim.Native.Nat.{compare, Ordering}
use git2_cxx.Base.Int.{ℤ, pos, negsuc, sub_ℕ, ◌<ℤ◌}
use git2_cxx.Stats.{Stats}
use git2_cxx.Ratio.{Ratio, calc, compare_ratio, compare_ratio_int, diff_ratio, pow10}
use git2_cxx.Ratio.Calc.{IsPercentage, calc_rounds, calc_full_wraps, calc_divides_by_zero}
use git2_cxx.Ratio.Compare.{at_scale, signed_units, compare_ratio_lem, compare_ratio_int_reversed}
use git2_cxx.Ratio.Diff.{diff_ratio_lem}

abbrev two_thirds : Stats
two_thirds = record { relevant = 3; visited = 2 }

calc-two_thirds : calc two_thirds 2 ≡ some (record { whole = 66; fraction = 67; digits = 2 })
unfolding calc pow10
calc-two_thirds = refl

calc_rounds_example : (r : Ratio ℕ) × (calc two_thirds 2 ≡ some r) × IsPercentage two_thirds 2 r
calc_rounds_example =
    calc_rounds two_thirds 2 (omega arith) (omega arith) (omega arith) (omega arith) (omega arith)

calc_full_wraps_example :
    (r : Ratio ℕ) × (calc (record { relevant = 50_000_000; visited = 50_000_000 }) 0 ≡ some r)
    × (r.whole < 100)
calc_full_wraps_example = calc_full_wraps 50_000_000 (omega arith) (omega arith)

calc_divides_by_zero_test : calc two_thirds 64 ≡ none
calc_divides_by_zero_test = calc_divides_by_zero two_thirds 64 (omega arith) (omega arith)

abbrev five_tenths : Ratio ℕ
five_tenths = record { whole = 5; fraction = 1; digits = 1 }

abbrev five_hundredths : Ratio ℕ
five_hundredths = record { whole = 5; fraction = 9; digits = 2 }

compare_ratio_lem_example :
    compare_ratio five_tenths five_hundredths
    ≡ compare (at_scale five_tenths 2) (at_scale five_hundredths 2)
compare_ratio_lem_example =
    compare_ratio_lem five_tenths five_hundredths (omega arith) (omega arith)

compare_ratio_int_reversed_test :
    (compare_ratio_int
        (record { whole = negsuc 2; fraction = pos 1; digits = 1 })
        (record { whole = negsuc 2; fraction = pos 4; digits = 1 })
      ≡ Ordering.lt)
    × (signed_units (record { whole = negsuc 2; fraction = pos 4; digits = 1 })
        <ℤ signed_units (record { whole = negsuc 2; fraction = pos 1; digits = 1 }))
compare_ratio_int_reversed_test = compare_ratio_int_reversed 2 1 4 1 (omega arith)

diff_ratio_lem_example :
    (r : Ratio ℤ) × (diff_ratio five_hundredths five_tenths ≡ some r)
    × (r.digits ≡ 2)
    × (signed_units r ≡ sub_ℕ (at_scale five_hundredths 2) (at_scale five_tenths 2))
diff_ratio_lem_example = diff_ratio_lem five_hundredths five_tenths (omega arith) (omega arith)
