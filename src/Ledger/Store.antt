-- ===== src/Ledger/Store.antt =====
-- services/ledger/internal/adapters/postgres/store.go with the tables and statements behind it
-- (migrations/000001_init.up.sql, queries.sql), and the port in services/ledger/internal/app/ports.go.
mod Tables
mod Statements
pub mod Lemmas
unfoldable pub use Tables.*
unfoldable pub use Statements.*
