-- ===== src/Apperr/Codes.antt =====
-- pkg/apperr/apperr.go: the stable codes. A `Code` is a string, and so it is here.
use bank_core.Prelude.{String, Bool, str_eq}

abbrev pub Code : Type 0
Code = String

abbrev pub code_invalid_argument : Code
code_invalid_argument = "INVALID_ARGUMENT"

abbrev pub code_not_found : Code
code_not_found = "NOT_FOUND"

abbrev pub code_already_exists : Code
code_already_exists = "ALREADY_EXISTS"

abbrev pub code_unauthenticated : Code
code_unauthenticated = "UNAUTHENTICATED"

abbrev pub code_forbidden : Code
code_forbidden = "FORBIDDEN"

abbrev pub code_insufficient_funds : Code
code_insufficient_funds = "INSUFFICIENT_FUNDS"

abbrev pub code_account_frozen : Code
code_account_frozen = "ACCOUNT_FROZEN"

abbrev pub code_currency_mismatch : Code
code_currency_mismatch = "CURRENCY_MISMATCH"

abbrev pub code_unbalanced_entry : Code
code_unbalanced_entry = "UNBALANCED_ENTRY"

abbrev pub code_limit_exceeded : Code
code_limit_exceeded = "LIMIT_EXCEEDED"

abbrev pub code_idempotency_conflict : Code
code_idempotency_conflict = "IDEMPOTENCY_CONFLICT"

abbrev pub code_idempotency_key_required : Code
code_idempotency_key_required = "IDEMPOTENCY_KEY_REQUIRED"

abbrev pub code_rate_limited : Code
code_rate_limited = "RATE_LIMITED"

abbrev pub code_upstream_unavailable : Code
code_upstream_unavailable = "UPSTREAM_UNAVAILABLE"

abbrev pub code_internal : Code
code_internal = "INTERNAL"

-- `Retryable`
unfoldable pub retryable : Code → Bool
retryable code = str_eq code code_upstream_unavailable
