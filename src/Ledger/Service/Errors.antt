-- ===== src/Ledger/Service/Errors.antt =====
-- services/ledger/internal/app/errors.go.
use bank_core.Apperr.{
  Code, code_insufficient_funds, code_account_frozen, code_currency_mismatch, code_unbalanced_entry,
  code_already_exists, code_invalid_argument, code_not_found,
}
use bank_core.Ledger.Domain.{
  DomainError, insufficient_funds, account_frozen, account_not_found, currency_mismatch,
  unknown_currency, unbalanced_entry, too_few_postings, zero_posting, overflow, duplicate_reference,
  hold_not_active, hold_exceeded, hold_account_mismatch, invalid_hold_amount,
}
use bank_core.Ledger.Store.{Fault, domain, not_found}

-- What a use case returns as an error: a typed error with its cause, one with no cause, or an
-- error passed on as it is.
pub data AppError : Type 0 where
  wrapped : Code → Fault → AppError
  coded : Code → AppError
  raw : Fault → AppError

-- The `switch` of `toAppErr` on the domain's errors.
unfoldable pub code_of_domain : DomainError → Code
code_of_domain insufficient_funds = code_insufficient_funds
code_of_domain account_frozen = code_account_frozen
code_of_domain currency_mismatch = code_currency_mismatch
code_of_domain unknown_currency = code_currency_mismatch
code_of_domain unbalanced_entry = code_unbalanced_entry
code_of_domain too_few_postings = code_unbalanced_entry
code_of_domain zero_posting = code_unbalanced_entry
code_of_domain overflow = code_unbalanced_entry
code_of_domain duplicate_reference = code_already_exists
code_of_domain hold_not_active = code_invalid_argument
code_of_domain hold_exceeded = code_invalid_argument
code_of_domain hold_account_mismatch = code_invalid_argument
code_of_domain invalid_hold_amount = code_invalid_argument
code_of_domain account_not_found = code_not_found

-- `toAppErr` of an error that is not nil.
unfoldable pub to_app_err : Fault → AppError
unfolding code_of_domain
to_app_err (domain e) = wrapped (code_of_domain e) (domain e)
to_app_err not_found = wrapped code_not_found not_found
to_app_err e = raw e
