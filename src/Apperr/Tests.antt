-- ===== src/Apperr/Tests.antt =====
-- Instances of the theorems on error codes.
use bank_core.Prelude.{◌≡◌}
use bank_core.Apperr.Codes.{code_insufficient_funds, code_upstream_unavailable, retryable}
use bank_core.Apperr.Grpc.{app_error, from_grpc, to_grpc, ambiguous}
use bank_core.Apperr.RoundTrip.{from_grpc-to_grpc, ambiguous-to_grpc}

from_grpc-to_grpc_example :
    from_grpc (to_grpc (app_error code_insufficient_funds)) ≡ code_insufficient_funds
from_grpc-to_grpc_example = from_grpc-to_grpc code_insufficient_funds

ambiguous-to_grpc_example :
    ambiguous (to_grpc (app_error code_upstream_unavailable)) ≡ retryable code_upstream_unavailable
ambiguous-to_grpc_example = ambiguous-to_grpc code_upstream_unavailable
