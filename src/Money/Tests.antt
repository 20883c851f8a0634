-- ===== src/Money/Tests.antt =====
-- Instances of the theorems on money.
use bank_core.Prelude.{◌≡◌, ◌⊎◌, arith}
use bank_core.Prelude.Int.{ℤ, pos, negsuc, ◌+ℤ◌, ◌*ℤ◌}
use bank_core.Prelude.Int64.{IsInt64}
use bank_core.Prelude.Results.{ok, err}
use bank_core.Money.Defs.{add_int64, overflow}
use bank_core.Money.Fx.{mul_div_half_even}
use bank_core.Money.Rounding.{IsHalfEven, mul_div_half_even_total}
use bank_core.Money.Arith.{add_int64_exact, add_int64_overflow}

add_int64_exact_example : add_int64 (pos 70) (negsuc 29) ≡ ok (pos 70 +ℤ negsuc 29)
unfolding ◌+ℤ◌
add_int64_exact_example =
    add_int64_exact (pos 70) (negsuc 29) (ground arith) (ground arith) (ground arith)

add_int64_overflow_example : add_int64 (pos 9_223_372_036_854_775_807) (pos 1) ≡ err overflow
unfolding ◌+ℤ◌
add_int64_overflow_example =
    add_int64_overflow (pos 9_223_372_036_854_775_807) (pos 1) (ground arith) (ground arith)
      (ground arith)

-- 5 / 2 is a tie, which goes to the even 2.
mul_div_half_even_total_example :
    (c : ℤ) × IsHalfEven (pos 5 *ℤ pos 1) (pos 2) c
    × ((IsInt64 c × (mul_div_half_even (pos 5) (pos 1) (pos 2) ≡ ok c))
        ⊎ (¬ (IsInt64 c) × (mul_div_half_even (pos 5) (pos 1) (pos 2) ≡ err overflow)))
mul_div_half_even_total_example = mul_div_half_even_total (pos 5) (pos 1) (pos 2) (ground arith)
