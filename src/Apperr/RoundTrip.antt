-- ===== src/Apperr/RoundTrip.antt =====
-- Proofs about ToGRPC, FromGRPC and Ambiguous of pkg/apperr/grpc.go.
use bank_core.Prelude.{
  ◌≡◌, All, List, [], ◌∷◌, Bool-cases, sym, ◌∙◌, refl, ◌⊎◌, inl, inr, arith, true, false,
  string_discrete,
}
use bank_core.Prelude.Dict.{Dict, get_or}
use bank_core.Apperr.{
  Code, app_error, grpc_status, GrpcCode, code_upstream_unavailable, grpc_codes, internal,
  ErrorInfo, to_grpc, from_grpc, ambiguous, retryable,
}

-- An application error sent by ToGRPC and read by FromGRPC has its code again, whichever it is.
pub from_grpc-to_grpc : (c : Code) → from_grpc (to_grpc (app_error c)) ≡ c
unfolding from_grpc to_grpc string_discrete
from_grpc-to_grpc c = refl

retryable-eq : (c : Code) → retryable c ≡ true → c ≡ code_upstream_unavailable
unfolding retryable
retryable-eq c h = ground arith

-- A row of the table is the one of the retryable code, or its status is not ambiguous.
abbrev IsDefinitive : Code × GrpcCode → Type 0
IsDefinitive (code, status) = (retryable code ≡ true) ⊎ (ambiguous (grpc_status status []) ≡ false)

get_or_definitive :
    (d : Dict GrpcCode) (c : Code)
    → All IsDefinitive d
    → retryable c ≡ false
    → ambiguous (grpc_status (get_or d c internal) []) ≡ false
unfolding ambiguous
get_or_definitive [] c h r = refl
get_or_definitive ((k, s) ∷ d) c h r = ground (arith, get_or_definitive d c h.1)

grpc_codes-IsDefinitive : All IsDefinitive grpc_codes
unfolding ambiguous retryable string_discrete
grpc_codes-IsDefinitive = (
  inr refl,
  (
    inr refl,
    (
      inr refl,
      (
        inr refl,
        (
          inr refl,
          (
            inr refl,
            (
              inr refl,
              (
                inr refl,
                (
                  inr refl,
                  (inr refl, (inr refl, (inr refl, (inr refl, (inl refl, (inr refl, tt)))))),
                ),
              ),
            ),
          ),
        ),
      ),
    ),
  ),
)

ambiguous_details :
    (s : GrpcCode) (ds es : List ErrorInfo)
    → ambiguous (grpc_status s ds) ≡ ambiguous (grpc_status s es)
unfolding ambiguous
ambiguous_details s ds es = ground arith

ambiguous_unavailable : ambiguous (to_grpc (app_error code_upstream_unavailable)) ≡ true
unfolding ambiguous to_grpc string_discrete
ambiguous_unavailable = refl

-- Over gRPC an application error is ambiguous exactly if its code is the one that clients may
-- retry, so a definitive refusal is never taken for an unknown outcome, nor the other way round.
pub ambiguous-to_grpc : (c : Code) → ambiguous (to_grpc (app_error c)) ≡ retryable c
unfolding to_grpc
ambiguous-to_grpc c = elim (Bool-cases (retryable c)) [
  | inl outage ↦ ground (arith, ambiguous_unavailable, retryable-eq c outage)
  | inr definitive ↦
      ambiguous_details _ _ []
      ∙ get_or_definitive grpc_codes c grpc_codes-IsDefinitive definitive
      ∙ sym definitive
]
