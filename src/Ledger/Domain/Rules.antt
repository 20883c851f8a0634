-- ===== src/Ledger/Domain/Rules.antt =====
-- services/ledger/internal/domain/domain.go: the functions.
use bank_core.Prelude.{
  Bool, true, false, not, ◌&&◌, ◌||◌, String, str_eq, if◌then◌else◌, List, [], ◌∷◌, Option, none,
  some, length, ltb,
}
use bank_core.Prelude.Int.{ℤ, pos, ltb_ℤ, leb_ℤ, eqb_ℤ}
use bank_core.Prelude.Int64.{add64, neg64}
use bank_core.Prelude.Dict.{Dict, lookup, insert}
use bank_core.Prelude.Results.{Result, ok, err, ◌>>=◌, ◌>>◌, fail_if}
use bank_core.Ledger.Domain.Defs.{
  DomainError, insufficient_funds, account_frozen, account_not_found, currency_mismatch,
  unknown_currency, unbalanced_entry, too_few_postings, zero_posting, overflow, hold_not_active,
  hold_exceeded, invalid_hold_amount, Account, Posting, Balance, Hold, available, valid_currency,
  type_customer, status_active, hold_active, hold_captured, hold_released,
}

-- `addChecked`
unfoldable pub add_checked : ℤ → ℤ → Result DomainError ℤ
unfolding add64
add_checked a b =
    let sum = add64 a b in
    if (ltb_ℤ (pos 0) b && ltb_ℤ sum a) || (ltb_ℤ b (pos 0) && ltb_ℤ a sum)
    then err overflow
    else ok sum

-- A read of a Go map of numbers: 0 where the key is missing.
abbrev pub get : String → Dict ℤ → ℤ
get k d = elim (lookup k d) [ none ↦ pos 0 | some v ↦ v ]

-- The checks of the loop of `ValidateEntry`, before the sum.
unfoldable pub check_leg : Option Account → Posting → Result DomainError (Unit {0})
unfolding valid_currency
check_leg none p = err account_not_found
check_leg (some acct) p =
    if eqb_ℤ p.amount (pos 0)
    then err zero_posting
    else if not (valid_currency p.currency)
    then err unknown_currency
    else if not (str_eq p.currency acct.currency)
    then err currency_mismatch
    else if str_eq acct.type type_customer && not (str_eq acct.status status_active)
    then err account_frozen
    else ok tt

-- The loop of `ValidateEntry`, on the sums so far.
unfoldable pub validate_legs : Dict Account → List Posting → Dict ℤ → Result DomainError (Dict ℤ)
validate_legs accounts [] sums = ok sums
validate_legs accounts (p ∷ ps) sums = do
  check_leg (lookup p.account_id accounts) p
  s ← add_checked (get p.currency sums) p.amount
  validate_legs accounts ps (insert p.currency s sums)

-- `for _, s := range sums { if s != 0 … }`
abbrev pub all_zero : Dict ℤ → Bool
all_zero [] = true
all_zero ((_, s) ∷ sums) = eqb_ℤ s (pos 0) && all_zero sums

-- `ValidateEntry`
unfoldable pub validate_entry : List Posting → Dict Account → Result DomainError (Unit {0})
validate_entry postings accounts = do
  fail_if (ltb (length postings) 2) too_few_postings
  sums ← validate_legs accounts postings []
  fail_if (not (all_zero sums)) unbalanced_entry

-- `ApplyPosting`
unfoldable pub apply_posting : Balance → String → ℤ → Result DomainError Balance
apply_posting b account_type delta = do
  nb ← add_checked b.balance delta
  let b' = record b { balance = nb; version = add64 b.version (pos 1) }
  fail_if (str_eq account_type type_customer && ltb_ℤ (available b') (pos 0)) insufficient_funds
  ok b'

-- `CanPlaceHold`
unfoldable pub can_place_hold : Balance → String → ℤ → Result DomainError (Unit {0})
can_place_hold b account_type amount =
    if leb_ℤ amount (pos 0)
    then err invalid_hold_amount
    else if not (str_eq account_type type_customer)
    then ok tt
    else if ltb_ℤ (available b) amount
    then err insufficient_funds
    else ok tt

-- `CaptureHold`: the negation of a debit wraps at the least int64.
unfoldable pub capture_hold : Hold → ℤ → Result DomainError Hold
unfolding neg64
capture_hold h debit =
    let size = if ltb_ℤ debit (pos 0) then neg64 debit else debit in
    if not (str_eq h.status hold_active)
    then err hold_not_active
    else if ltb_ℤ h.amount size
    then err hold_exceeded
    else ok (record h { status = hold_captured })

-- `ReleaseHold`: the hold, and whether it changed.
unfoldable pub release_hold : Hold → Result DomainError (Hold × Bool)
release_hold h =
    if str_eq h.status hold_released
    then ok (h, false)
    else if str_eq h.status hold_captured
    then err hold_not_active
    else ok (record h { status = hold_released }, true)
