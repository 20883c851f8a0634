-- ===== src/Ledger/Domain.antt =====
-- services/ledger/internal/domain/domain.go: the pure double-entry rules. The theorems stand in
-- `Entry` (ValidateEntry) and `Holds` (balances and holds).
mod Defs
mod Rules
pub mod Entry
pub mod Holds
mod Tests
unfoldable pub use Defs.*
unfoldable pub use Rules.*
