-- ===== src/Money/Fx.antt =====
-- pkg/money/fx.go: conversion by a rate in micros, rounded half to even.
use bank_core.Prelude.{differ, ◌*◌, ◌/◌, ◌%◌, Bool, not, ◌&&◌, ◌||◌, ltb, ◌==◌, if◌then◌else◌}
use bank_core.Prelude.Int.{ℤ, pos, ◌+ℤ◌, ◌-ℤ◌, ◌*ℤ◌, neg, nat_abs, ltb_ℤ, eqb_ℤ}
use bank_core.Prelude.Int64.{is_int64}
use bank_core.Prelude.Results.{Result, ok, err}
use bank_core.Money.Defs.{MoneyError, overflow, invalid_amount}

abbrev pub rate_scale : ℤ
rate_scale = pos 1_000_000

-- `(n.Sign() < 0) != (d.Sign() < 0)`
unfoldable pub opposite_signs : ℤ → ℤ → Bool
opposite_signs n d = differ (ltb_ℤ n (pos 0)) (ltb_ℤ d (pos 0))

-- `big.Int.QuoRem`: division truncated towards zero.
unfoldable pub quo : ℤ → ℤ → ℤ
quo n d = let q = nat_abs n / nat_abs d in if opposite_signs n d then neg (pos q) else pos q

unfoldable pub rem : ℤ → ℤ → ℤ
rem n d = let r = nat_abs n % nat_abs d in if ltb_ℤ n (pos 0) then neg (pos r) else pos r

-- The `if r.Sign() != 0` block: `q` moved away from zero where |2r| > |d|, or a tie at odd `q`.
unfoldable pub round_quotient : ℤ → ℤ → ℤ → ℤ → ℤ
round_quotient n d q r =
    let r2 = 2 * nat_abs r in
    let round_away = ltb (nat_abs d) r2 || (r2 == nat_abs d && nat_abs q % 2 == 1) in
    if eqb_ℤ r (pos 0)
    then q
    else if round_away
    then (if opposite_signs n d then q -ℤ pos 1 else q +ℤ pos 1)
    else q

unfoldable pub mul_div_half_even : ℤ → ℤ → ℤ → Result MoneyError ℤ
mul_div_half_even v num den =
    let n = v *ℤ num in
    let q = round_quotient n den (quo n den) (rem n den) in
    if eqb_ℤ den (pos 0)
    then err invalid_amount
    else if not (is_int64 q)
    then err overflow
    else ok q

-- `Convert`
unfoldable pub convert : ℤ → ℤ → Result MoneyError ℤ
unfolding mul_div_half_even
convert value rate_micros = mul_div_half_even value rate_micros rate_scale

-- `ConvertInverse`
unfoldable pub convert_inverse : ℤ → ℤ → Result MoneyError ℤ
unfolding mul_div_half_even
convert_inverse value rate_micros =
    if eqb_ℤ rate_micros (pos 0)
    then err invalid_amount
    else mul_div_half_even value rate_scale rate_micros
