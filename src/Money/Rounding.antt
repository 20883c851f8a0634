-- ===== src/Money/Rounding.antt =====
-- Proofs about the rounding of pkg/money/fx.go.
use bank_core.Prelude.{
  differ, ℕ, ◌+◌, ◌*◌, ◌/◌, ◌%◌, ◌-◌, ◌≤◌, ◌<◌, ◌≡◌, arith, ◌==◌, ltb, ◌||◌, ◌&&◌, if◌then◌else◌,
  ◌⊎◌, Bool, true, false,
}
use bank_core.Prelude.Int.{ℤ, pos, negsuc, ◌+ℤ◌, ◌-ℤ◌, ◌*ℤ◌, neg, nat_abs, ltb_ℤ}
use bank_core.Prelude.Int64.{IsInt64}
use bank_core.Prelude.Results.{ok, err}
use bank_core.Money.{opposite_signs, quo, rem, round_quotient, mul_div_half_even, overflow}

-- `c` is `n / d` rounded to the nearest integer, and to the even one of two that are as near.
abbrev pub IsHalfEven : ℤ → ℤ → ℤ → Type 0
IsHalfEven n d c =
    (2 * nat_abs (n -ℤ c *ℤ d) ≤ nat_abs d)
    × (2 * nat_abs (n -ℤ c *ℤ d) ≡ nat_abs d → nat_abs c % 2 ≡ 0)

-- The rounding on magnitudes.
half_even : ℕ → ℕ → ℕ
half_even m e =
    let q = m / e in
    let r = m % e in if ltb e (2 * r) || (2 * r == e && q % 2 == 1) then q + 1 else q

distance : ℕ → ℕ → ℕ
distance a b = (a - b) + (b - a)

half_even_near : (m e : ℕ) → 0 < e → 2 * distance m (half_even m e * e) ≤ e
unfolding half_even distance
half_even_near m e h = grind arith

half_even_tie : (m e : ℕ) → 0 < e → 2 * distance m (half_even m e * e) ≡ e → half_even m e % 2 ≡ 0
unfolding half_even distance
half_even_tie m e h t = grind arith

abbrev signed : Bool → ℕ → ℤ
signed true k = neg (pos k)
signed false k = pos k

-- The magnitude of a remainder, whatever its sign.
nat_abs-rem : (n d : ℤ) → nat_abs (rem n d) ≡ nat_abs n % nat_abs d
unfolding rem neg
nat_abs-rem n d = ground arith

rounded : ℕ → ℕ → ℕ → ℕ
rounded q r e = if ltb e (2 * r) || (2 * r == e && q % 2 == 1) then q + 1 else q

-- At a remainder of 0 the rounding leaves the quotient.
round_quotient-rounded :
    (n d r : ℤ) (q : ℕ)
    → 0 < nat_abs d
    → round_quotient n d (if opposite_signs n d then neg (pos q) else pos q) r
      ≡ signed (opposite_signs n d) (rounded q (nat_abs r) (nat_abs d))
unfolding round_quotient rounded neg ◌+ℤ◌ ◌-ℤ◌
round_quotient-rounded n d r q h = ground arith

round_quotient-magnitude :
    (n d : ℤ)
    → 0 < nat_abs d
    → round_quotient n d (quo n d) (rem n d)
      ≡ signed (opposite_signs n d) (half_even (nat_abs n) (nat_abs d))
unfolding quo half_even rounded
round_quotient-magnitude n d h =
    rw (round_quotient-rounded n d (rem n d) (nat_abs n / nat_abs d) h) (rw (nat_abs-rem n d))

signed-mul :
    (b : Bool) (d : ℤ) (k : ℕ)
    → signed (differ b (ltb_ℤ d (pos 0))) k *ℤ d ≡ signed b (k * nat_abs d)
unfolding ◌*ℤ◌ neg
signed-mul true (pos d) k = ground arith
signed-mul true (negsuc d) k = ground arith
signed-mul false (pos d) k = ground arith
signed-mul false (negsuc d) k = ground arith

sub-signed : (n : ℤ) (x : ℕ) → nat_abs (n -ℤ signed (ltb_ℤ n (pos 0)) x) ≡ distance (nat_abs n) x
unfolding distance ◌-ℤ◌ neg
sub-signed (pos n) x = ground arith
sub-signed (negsuc n) x = ground arith

quotient-distance :
    (n d : ℤ) (k : ℕ)
    → nat_abs (n -ℤ signed (opposite_signs n d) k *ℤ d) ≡ distance (nat_abs n) (k * nat_abs d)
unfolding opposite_signs
quotient-distance n d k = rw (signed-mul (ltb_ℤ n (pos 0)) d k) (sub-signed n (k * nat_abs d))

nat_abs-signed : (b : Bool) (k : ℕ) → nat_abs (signed b k) ≡ k
unfolding neg
nat_abs-signed true k = ground arith
nat_abs-signed false k = ground arith

round_quotient-IsHalfEven :
    (n d : ℤ) → 0 < nat_abs d → IsHalfEven n d (round_quotient n d (quo n d) (rem n d))
round_quotient-IsHalfEven n d h =
    let k = half_even (nat_abs n) (nat_abs d) in
    rw (round_quotient-magnitude n d h) (
      rw (quotient-distance n d k) (half_even_near (nat_abs n) (nat_abs d) h),
      rw (quotient-distance n d k, nat_abs-signed (opposite_signs n d) k)
          (half_even_tie (nat_abs n) (nat_abs d) h),
    )

-- Division with rounding, at a divisor that is not 0: there is a value rounded half to even, and
-- the call returns it where it is an int64 and reports overflow where it is not.
pub mul_div_half_even_total :
    (v num den : ℤ)
    → 0 < nat_abs den
    → (c : ℤ) × IsHalfEven (v *ℤ num) den c
      × ((IsInt64 c × (mul_div_half_even v num den ≡ ok c))
          ⊎ (¬ (IsInt64 c) × (mul_div_half_even v num den ≡ err overflow)))
unfolding mul_div_half_even
mul_div_half_even_total v num den h =
    let n = v *ℤ num in
    let c = round_quotient n den (quo n den) (rem n den) in
    (c, round_quotient-IsHalfEven n den h, ground arith)
