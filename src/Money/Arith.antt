-- ===== src/Money/Arith.antt =====
-- Proofs about the checked arithmetic of pkg/money/money.go.
use bank_core.Prelude.{◌≡◌, arith}
use bank_core.Prelude.Int.{ℤ, ◌+ℤ◌, ◌-ℤ◌, neg}
use bank_core.Prelude.Int64.{IsInt64, wrap}
use bank_core.Prelude.Results.{ok, err}
use bank_core.Money.{Amount, overflow, add_int64, sub}

pub add_int64_exact :
    (a b : ℤ) → IsInt64 a → IsInt64 b → IsInt64 (a +ℤ b) → add_int64 a b ≡ ok (a +ℤ b)
unfolding add_int64 wrap ◌+ℤ◌
add_int64_exact a b ha hb h = ground arith

pub add_int64_overflow :
    (a b : ℤ) → IsInt64 a → IsInt64 b → ¬ (IsInt64 (a +ℤ b)) → add_int64 a b ≡ err overflow
unfolding add_int64 wrap ◌+ℤ◌
add_int64_overflow a b ha hb h = ground arith

-- `a.Sub(b)` of int64 values in one currency gives the difference exactly where -b and the
-- difference are int64; the least int64 is refused as `b` even where the difference would fit.
pub sub_exact :
    (a b : Amount)
    → IsInt64 a.value
    → IsInt64 b.value
    → IsInt64 (neg b.value)
    → a.currency ≡ b.currency
    → IsInt64 (a.value -ℤ b.value)
    → sub a b ≡ ok (record { value = a.value -ℤ b.value; currency = a.currency })
unfolding sub wrap ◌+ℤ◌ ◌-ℤ◌ neg
sub_exact a b ha hb hn e h = ground arith
