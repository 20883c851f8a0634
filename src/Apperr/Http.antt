-- ===== src/Apperr/Http.antt =====
-- pkg/apperr/http.go: the HTTP statuses of the codes.
use bank_core.Prelude.{ℕ, [], ◌∷◌}
use bank_core.Prelude.Dict.{Dict, get_or}
use bank_core.Apperr.Codes.{
  Code, code_invalid_argument, code_not_found, code_already_exists, code_unauthenticated,
  code_forbidden, code_insufficient_funds, code_account_frozen, code_currency_mismatch,
  code_unbalanced_entry, code_limit_exceeded, code_idempotency_conflict,
  code_idempotency_key_required, code_rate_limited, code_upstream_unavailable, code_internal,
}

-- `httpStatus`
abbrev pub http_statuses : Dict ℕ
http_statuses =
    (code_invalid_argument, 400)
    ∷ (code_not_found, 404)
    ∷ (code_already_exists, 409)
    ∷ (code_unauthenticated, 401)
    ∷ (code_forbidden, 403)
    ∷ (code_insufficient_funds, 422)
    ∷ (code_account_frozen, 422)
    ∷ (code_currency_mismatch, 422)
    ∷ (code_unbalanced_entry, 422)
    ∷ (code_limit_exceeded, 422)
    ∷ (code_idempotency_conflict, 422)
    ∷ (code_idempotency_key_required, 400)
    ∷ (code_rate_limited, 429)
    ∷ (code_upstream_unavailable, 503)
    ∷ (code_internal, 500)
    ∷ []

-- `HTTPStatus`
unfoldable pub http_status : Code → ℕ
http_status c = get_or http_statuses c 500
