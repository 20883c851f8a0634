-- ===== src/Transfer/Tables.antt =====
-- services/transfer/internal/app/ports.go and the tables of services/transfer/migrations/
-- 000001_init.up.sql. Times are microseconds.
use bank_core.Prelude.{ℕ, String, List, Option}
use bank_core.Prelude.Int.{ℤ}
use bank_core.Prelude.Results.{Result, ok, err}
use bank_core.Apperr.{Code, GoError}
use bank_core.Transfer.State.{State}

-- The errors that the service's methods return: the sentinels of ports.go, an error with a code, the
-- error of a client, and any other error of the database.
pub data SagaError : Type 0 where
  not_found state_raced db_error : SagaError
  coded : Code → SagaError
  client : GoError → SagaError

-- A text that is nil in the source is `none` here, but for the account ids and the account number,
-- where the source has the empty text. `counter_currency` is nil exactly where `counter_amount` is,
-- and is then never read.
pub record Transfer : Type 0 where
  pub id : String
  pub type : String
  pub state : State
  pub customer_id : String
  pub from_account_id : String
  pub to_account_id : String
  pub to_account_number : String
  pub amount : ℤ
  pub currency : String
  pub counter_amount : Option ℤ
  pub counter_currency : String
  pub rate_micros : Option ℤ
  pub rate_pair : Option String
  pub reason : Option String
  pub hold_id : Option String
  pub recovery_attempts : ℤ
  pub created_at : ℕ
  pub updated_at : ℕ

pub record Rate : Type 0 where
  pub pair : String
  pub buy_micros : ℤ
  pub sell_micros : ℤ
  pub valid_from : ℕ

pub record AccountInfo : Type 0 where
  pub id : String
  pub user_id : String
  pub number : String
  pub currency : String
  pub status : String

-- A row of `transfer_events`, less its detail.
pub record TransferEvent : Type 0 where
  pub transfer_id : String
  pub from_state : State
  pub to_state : State

-- A row of `idempotency_keys`.
pub record IdempotencyKey : Type 0 where
  pub customer_id : String
  pub key : String
  pub transfer_id : String
  pub request_hash : String
  pub created_at : ℕ

-- A row of `limits`.
pub record Limit : Type 0 where
  pub tier : String
  pub currency : String
  pub per_tx : ℤ
  pub daily : ℤ

-- The payload of an outbox row: the transfer as it is at the end, and a failure's reason.
pub data StatusEvent : Type 0 where
  transfer_completed : Transfer → StatusEvent
  transfer_failed : Transfer → String → StatusEvent

pub record TransferDb : Type 0 where
  pub transfers : List Transfer
  pub events : List TransferEvent
  pub keys : List IdempotencyKey
  pub rates : List Rate
  pub limits : List Limit
  pub outbox : List StatusEvent

-- A transaction on the tables: where it fails, they stay.
abbrev pub TransferTx : Type 0 → Type 0
TransferTx A = TransferDb → Result SagaError (A × TransferDb)

-- `WithinTx`
unfoldable pub commit : {A : Type 0} → TransferTx A → TransferDb → Result SagaError A × TransferDb
commit m db = elim (m db) [ ok (a, db') ↦ (ok a, db') | err e ↦ (err e, db) ]
