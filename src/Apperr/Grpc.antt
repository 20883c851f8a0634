-- ===== src/Apperr/Grpc.antt =====
-- pkg/apperr/grpc.go. A Go error is one of four kinds, as far as this file tells them apart: a
-- typed application error, the expired deadline of a context, a gRPC status with its ErrorInfo
-- details, and any other. Messages are not modelled: no branch reads them.
use bank_core.Prelude.{
  String, Bool, true, false, str_eq, if◌then◌else◌, List, [], ◌∷◌, Option, none, some,
}
use bank_core.Prelude.Dict.{Dict, get_or}
use bank_core.Apperr.Codes.{
  Code, code_invalid_argument, code_not_found, code_already_exists, code_unauthenticated,
  code_forbidden, code_insufficient_funds, code_account_frozen, code_currency_mismatch,
  code_unbalanced_entry, code_limit_exceeded, code_idempotency_conflict,
  code_idempotency_key_required, code_rate_limited, code_upstream_unavailable, code_internal,
}

-- The status codes of google.golang.org/grpc/codes that an error can carry.
pub data GrpcCode : Type 0 where
  canceled unknown invalid_argument deadline_exceeded not_found already_exists : GrpcCode
  permission_denied resource_exhausted failed_precondition aborted out_of_range : GrpcCode
  unimplemented internal unavailable data_loss unauthenticated : GrpcCode

-- `errdetails.ErrorInfo`
pub record ErrorInfo : Type 0 where
  pub reason : String
  pub domain : String

pub data GoError : Type 0 where
  app_error : Code → GoError
  context_deadline : GoError
  grpc_status : GrpcCode → List ErrorInfo → GoError
  other_error : GoError

abbrev pub error_domain : String
error_domain = "bank-core"

-- `grpcCode`
abbrev pub grpc_codes : Dict GrpcCode
grpc_codes =
    (code_invalid_argument, invalid_argument)
    ∷ (code_not_found, not_found)
    ∷ (code_already_exists, already_exists)
    ∷ (code_unauthenticated, unauthenticated)
    ∷ (code_forbidden, permission_denied)
    ∷ (code_insufficient_funds, failed_precondition)
    ∷ (code_account_frozen, failed_precondition)
    ∷ (code_currency_mismatch, failed_precondition)
    ∷ (code_unbalanced_entry, failed_precondition)
    ∷ (code_limit_exceeded, failed_precondition)
    ∷ (code_idempotency_conflict, failed_precondition)
    ∷ (code_idempotency_key_required, invalid_argument)
    ∷ (code_rate_limited, resource_exhausted)
    ∷ (code_upstream_unavailable, unavailable)
    ∷ (code_internal, internal)
    ∷ []

-- `ToGRPC` of an error that is not nil. A detail that cannot be attached, which the library reports
-- only for a status without an error, is not modelled.
unfoldable pub to_grpc : GoError → GoError
to_grpc (app_error code) =
    grpc_status (get_or grpc_codes code internal)
      (record { reason = code; domain = error_domain } ∷ [])
to_grpc context_deadline = grpc_status deadline_exceeded []
to_grpc _ = grpc_status internal []

-- The loop over the details in `FromGRPC`.
unfoldable pub find_reason : List ErrorInfo → Option Code
find_reason [] = none
find_reason (d ∷ ds) = if str_eq d.domain error_domain then some d.reason else find_reason ds

-- The `switch` over the status code in `FromGRPC`.
unfoldable pub code_of_status : GrpcCode → Code
code_of_status unavailable = code_upstream_unavailable
code_of_status deadline_exceeded = code_upstream_unavailable
code_of_status not_found = code_not_found
code_of_status already_exists = code_already_exists
code_of_status invalid_argument = code_invalid_argument
code_of_status unauthenticated = code_unauthenticated
code_of_status permission_denied = code_forbidden
code_of_status resource_exhausted = code_rate_limited
code_of_status _ = code_internal

-- The code of `FromGRPC` of an error that is not nil.
unfoldable pub from_grpc : GoError → Code
unfolding find_reason code_of_status
from_grpc (grpc_status c details) = elim (find_reason details) [
  | some reason ↦ reason
  | none ↦ code_of_status c
]
from_grpc _ = code_internal

-- `Ambiguous` of an error that is not nil.
unfoldable pub ambiguous : GoError → Bool
ambiguous context_deadline = true
ambiguous (grpc_status unavailable _) = true
ambiguous (grpc_status deadline_exceeded _) = true
ambiguous _ = false
