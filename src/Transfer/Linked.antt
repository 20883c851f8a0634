-- ===== src/Transfer/Linked.antt =====
-- PostTransaction of services/transfer/internal/adapters/ledgerclient/client.go, through the handler of
-- services/ledger/internal/adapters/grpc/server.go, to the ledger's use case. The ids that the ledger
-- draws and what becomes of each call on its way are arguments.
use bank_core.Prelude.{ℕ, ◌+◌, String, List, map}
use bank_core.Prelude.Results.{Result, ok, err}
use bank_core.Apperr.{GoError, app_error, other_error, to_grpc}
use bank_core.Ledger.Store.{Db}
use bank_core.Ledger.Service.{AppError, wrapped, coded, raw, Draws, post_transaction}
use bank_core.Transfer.Postings.{LedgerPosting, to_spec}
use bank_core.Transfer.Clients.{Clients}

-- What becomes of a call: the answer arrives, the answer is lost, or the ledger never gets the call.
pub data Delivery : Type 0 where
  answered : Delivery
  answer_lost not_sent : GoError → Delivery

-- The ledger's tables, and the number of posts that were tried.
pub record LedgerWorld : Type 0 where
  pub calls : ℕ
  pub books : Db

-- `referenceType`
abbrev pub reference_type : String
reference_type = "transfer"

-- The ledger's error as `ToGRPC` tells it apart.
abbrev pub go_error : AppError → GoError
go_error (wrapped code _) = app_error code
go_error (coded code) = app_error code
go_error (raw _) = other_error

-- `PostTransaction` of the client and of the server.
unfoldable pub post_through :
    (ℕ → Draws)
    → (ℕ → Delivery)
    → String
    → String
    → List LedgerPosting
    → LedgerWorld
    → Result GoError (Unit {0}) × LedgerWorld
post_through draws deliveries id hold legs w =
    let (r, books) =
      post_transaction (draws w.calls) reference_type id hold (map to_spec legs) w.books in
    elim (deliveries w.calls) [
      | answered ↦ (
        elim r [ ok _ ↦ ok tt | err e ↦ err (to_grpc (go_error e)) ],
        record { calls = w.calls + 1; books = books },
      )
      | answer_lost e ↦ (err e, record { calls = w.calls + 1; books = books })
      | not_sent e ↦ (err e, record w { calls = w.calls + 1 })
    ]

-- Clients that post to the ledger.
abbrev pub with_ledger : (ℕ → Draws) → (ℕ → Delivery) → Clients LedgerWorld → Clients LedgerWorld
with_ledger draws deliveries clients = record clients {
  post_transaction = post_through draws deliveries;
}
