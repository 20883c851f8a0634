-- ===== src/Money/Defs.antt =====
-- pkg/money/money.go: amounts and overflow-checked arithmetic.
use bank_core.Prelude.{◌^◌, ◌-◌, Bool, not, ◌&&◌, ◌||◌, String, str_eq, if◌then◌else◌}
use bank_core.Prelude.Int.{ℤ, pos, negsuc, ltb_ℤ, eqb_ℤ}
use bank_core.Prelude.Int64.{add64, neg64}
use bank_core.Prelude.Results.{Result, ok, err, ◌>>=◌, ◌>>◌, fail_if}

pub data MoneyError : Type 0 where
  currency_mismatch unknown_currency overflow invalid_amount : MoneyError

-- `Value` is an int64.
pub record Amount : Type 0 where
  pub value : ℤ
  pub currency : String

abbrev pub kzt : String
kzt = "KZT"

abbrev pub usd : String
usd = "USD"

unfoldable pub valid_currency : String → Bool
valid_currency c = str_eq c kzt || str_eq c usd

-- `New`
unfoldable pub new : ℤ → String → Result MoneyError Amount
unfolding valid_currency
new value currency =
    if not (valid_currency currency)
    then err unknown_currency
    else ok (record { value = value; currency = currency })

-- `AddInt64`: the sum wraps, and the test looks at the wrapped sum.
unfoldable pub add_int64 : ℤ → ℤ → Result MoneyError ℤ
unfolding add64
add_int64 a b =
    let sum = add64 a b in
    if (ltb_ℤ (pos 0) b && ltb_ℤ sum a) || (ltb_ℤ b (pos 0) && ltb_ℤ a sum)
    then err overflow
    else ok sum

-- -1 << 63
abbrev pub min_int64 : ℤ
min_int64 = negsuc (2 ^ 63 - 1)

-- `Amount.Add`
unfoldable pub add : Amount → Amount → Result MoneyError Amount
unfolding add_int64
add a b = do
  fail_if (not (str_eq a.currency b.currency)) currency_mismatch
  v ← add_int64 a.value b.value
  ok (record { value = v; currency = a.currency })

-- `Amount.Sub`
unfoldable pub sub : Amount → Amount → Result MoneyError Amount
unfolding add neg64
sub a b = do
  fail_if (eqb_ℤ b.value min_int64) overflow
  add a (record { value = neg64 b.value; currency = b.currency })

-- `Amount.Neg`
unfoldable pub negate : Amount → Result MoneyError Amount
unfolding neg64
negate a = do
  fail_if (eqb_ℤ a.value min_int64) overflow
  ok (record { value = neg64 a.value; currency = a.currency })

unfoldable pub is_positive : Amount → Bool
is_positive a = ltb_ℤ (pos 0) a.value
