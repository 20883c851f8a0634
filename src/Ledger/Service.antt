-- ===== src/Ledger/Service.antt =====
-- services/ledger/internal/app: the use cases (service.go), the translation of errors (errors.go)
-- and the sweeper (sweeper.go).
mod Errors
mod Payload
mod Holds
mod Post
mod Queries
unfoldable pub use Errors.*
unfoldable pub use Payload.*
unfoldable pub use Holds.*
unfoldable pub use Post.*
unfoldable pub use Queries.*
