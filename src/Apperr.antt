-- ===== src/Apperr.antt =====
-- pkg/apperr: the error codes (apperr.go), their gRPC form (grpc.go) and their HTTP form (http.go).
-- `RoundTrip` holds the theorems.
mod Codes
mod Grpc
mod Http
pub mod RoundTrip
mod Tests
unfoldable pub use Codes.*
unfoldable pub use Grpc.*
unfoldable pub use Http.*
