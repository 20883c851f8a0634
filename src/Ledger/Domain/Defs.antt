-- ===== src/Ledger/Domain/Defs.antt =====
-- services/ledger/internal/domain/domain.go: the types, the errors and the constants.
use bank_core.Prelude.{ℕ, String, Bool, str_eq, ◌||◌}
use bank_core.Prelude.Int.{ℤ}
use bank_core.Prelude.Int64.{sub64}

pub data DomainError : Type 0 where
  insufficient_funds account_frozen account_not_found currency_mismatch : DomainError
  unknown_currency unbalanced_entry too_few_postings zero_posting overflow : DomainError
  duplicate_reference hold_not_active hold_exceeded hold_account_mismatch : DomainError
  invalid_hold_amount : DomainError

abbrev pub type_customer : String
type_customer = "customer"

abbrev pub type_internal : String
type_internal = "internal"

abbrev pub status_active : String
status_active = "ACTIVE"

abbrev pub hold_active : String
hold_active = "active"

abbrev pub hold_captured : String
hold_captured = "captured"

abbrev pub hold_released : String
hold_released = "released"

pub record Account : Type 0 where
  pub id : String
  pub external_id : String
  pub internal_code : String
  pub type : String
  pub currency : String
  pub status : String

-- One leg of an entry; `amount` is an int64, negative for a debit.
pub record Posting : Type 0 where
  pub account_id : String
  pub amount : ℤ
  pub currency : String

-- `balance`, `held` and `version` are int64.
pub record Balance : Type 0 where
  pub account_id : String
  pub currency : String
  pub balance : ℤ
  pub held : ℤ
  pub version : ℤ

-- `Balance.Available`
unfoldable pub available : Balance → ℤ
unfolding sub64
available b = sub64 b.balance b.held

-- `expires_at` is a time in microseconds.
pub record Hold : Type 0 where
  pub id : String
  pub account_id : String
  pub amount : ℤ
  pub currency : String
  pub reference_type : String
  pub reference_id : String
  pub status : String
  pub expires_at : ℕ

unfoldable pub valid_currency : String → Bool
valid_currency c = str_eq c "KZT" || str_eq c "USD"
