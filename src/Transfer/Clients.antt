-- ===== src/Transfer/Clients.antt =====
-- The ports of services/transfer/internal/app/ports.go to the ledger and to the account service. `W` is
-- all that lies outside the transfer service: a call answers and may change it.
use bank_core.Prelude.{String, Bool, List}
use bank_core.Prelude.Int.{ℤ}
use bank_core.Prelude.Results.{Result}
use bank_core.Apperr.{GoError}
use bank_core.Transfer.Tables.{AccountInfo, TransferDb}
use bank_core.Transfer.Postings.{LedgerAccountRef, LedgerPosting}

-- `LedgerClient` and `AccountClient`.
pub record Clients (W : Type 0) : Type 0 where
  pub place_hold : LedgerAccountRef → ℤ → String → String → W → Result GoError String × W
  pub release_hold : String → W → Result GoError (Unit {0}) × W
  pub post_transaction : String → String → List LedgerPosting → W → Result GoError (Unit {0}) × W
  pub transaction_exists : String → W → Result GoError Bool × W
  pub get_account : String → W → Result GoError AccountInfo × W
  pub resolve_by_number : String → W → Result GoError AccountInfo × W

-- The service's tables and the world around it.
pub record World (W : Type 0) : Type 0 where
  pub db : TransferDb
  pub outside : W
