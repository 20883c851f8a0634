-- ===== src/Ledger.antt =====
-- services/ledger: the double-entry ledger.
pub mod Domain
pub mod Store
pub mod Service
pub mod Tests
pub mod Books
