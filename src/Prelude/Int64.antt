-- ===== src/Prelude/Int64.antt =====
-- Go's int64: an integer with a range, and operations that wrap around at 2 ^ 64.
use bank_core.Prelude.{◌+◌, ◌-◌, ◌%◌, ◌^◌, ◌≤◌, ◌<◌, ◌≡◌, Bool, arith, ltb, leb, if◌then◌else◌}
use bank_core.Prelude.Int.{ℤ, pos, negsuc, pos_part, neg_part, ◌+ℤ◌, ◌-ℤ◌, neg}

-- -2^63 ≤ a < 2^63
abbrev pub IsInt64 : ℤ → Type 0
IsInt64 a = (pos_part a < 2 ^ 63) × (neg_part a ≤ 2 ^ 63)

abbrev pub is_int64 : ℤ → Bool
is_int64 a = if ltb (pos_part a) (2 ^ 63) then leb (neg_part a) (2 ^ 63) else ltb 1 0

-- The int64 with the same low 64 bits.
unfoldable pub wrap : ℤ → ℤ
wrap a =
    let u = (pos_part a + 2 ^ 64 - neg_part a % 2 ^ 64) % 2 ^ 64 in
    if ltb u (2 ^ 63) then pos u else negsuc (2 ^ 64 - 1 - u)

pub wrap-IsInt64 : (a : ℤ) → IsInt64 (wrap a)
unfolding wrap
wrap-IsInt64 a = ground arith

pub wrap_of_IsInt64 : (a : ℤ) → IsInt64 a → wrap a ≡ a
unfolding wrap
wrap_of_IsInt64 a h = ground arith

unfoldable pub add64 : ℤ → ℤ → ℤ
add64 a b = wrap (a +ℤ b)

unfoldable pub sub64 : ℤ → ℤ → ℤ
sub64 a b = wrap (a -ℤ b)

unfoldable pub neg64 : ℤ → ℤ
neg64 a = wrap (neg a)

pub add64_exact : (a b : ℤ) → IsInt64 (a +ℤ b) → add64 a b ≡ a +ℤ b
unfolding add64
add64_exact a b h = wrap_of_IsInt64 (a +ℤ b) h

pub sub64_exact : (a b : ℤ) → IsInt64 (a -ℤ b) → sub64 a b ≡ a -ℤ b
unfolding sub64
sub64_exact a b h = wrap_of_IsInt64 (a -ℤ b) h

pub neg64_exact : (a : ℤ) → IsInt64 (neg a) → neg64 a ≡ neg a
unfolding neg64
neg64_exact a h = wrap_of_IsInt64 (neg a) h
