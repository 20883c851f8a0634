-- ===== src/Transfer/Create.antt =====
-- services/transfer/internal/app/service.go: `CreateTransfer` with its idempotency key, and the read
-- of one transfer. The hex form of a text's SHA-256 and the decimal form of an integer are parameters,
-- and the id that is drawn is an argument.
use Prim.Native.String.{◌++◌}
use bank_core.Prelude.{
  ℕ, String, str_eq, Bool, true, false, not, ◌&&◌, if◌then◌else◌, Option, none, some,
}
use bank_core.Prelude.Int.{ℤ, pos}
use bank_core.Prelude.Results.{Result, ok, err}
use bank_core.Apperr.{
  code_unauthenticated, code_idempotency_key_required, code_invalid_argument, code_internal,
  code_idempotency_conflict, code_not_found, code_forbidden,
}
use bank_core.Transfer.State.{created, is_terminal}
use bank_core.Transfer.Request.{validate_spec}
use bank_core.Transfer.Tables.{
  SagaError, not_found, coded, Transfer, IdempotencyKey, TransferDb, TransferTx, commit,
}
use bank_core.Transfer.Store.{get_transfer, append_event, insert_transfer, try_insert_key, get_key}
use bank_core.Transfer.Clients.{Clients, World}
use bank_core.Transfer.Saga.{drive}

-- `CreateCmd`
pub record CreateCmd : Type 0 where
  pub customer_id : String
  pub idempotency_key : String
  pub type : String
  pub from_account_id : String
  pub to_account_id : String
  pub to_account_number : String
  pub amount : ℤ
  pub currency : String

-- The row that CreateTransfer inserts.
abbrev pub new_transfer : String → ℕ → CreateCmd → Transfer
new_transfer id now cmd = record {
  id = id;
  type = cmd.type;
  state = created;
  customer_id = cmd.customer_id;
  from_account_id = cmd.from_account_id;
  to_account_id = cmd.to_account_id;
  to_account_number = cmd.to_account_number;
  amount = cmd.amount;
  currency = cmd.currency;
  counter_amount = none;
  counter_currency = "";
  rate_micros = none;
  rate_pair = none;
  reason = none;
  hold_id = none;
  recovery_attempts = pos 0;
  created_at = now;
  updated_at = now;
}

-- The claims of a caller that the service reads.
pub record Caller : Type 0 where
  pub customer_id : String
  pub is_staff : Bool

-- `GetTransfer`
unfoldable pub get_own_transfer : Caller → String → TransferDb → Result SagaError Transfer
get_own_transfer caller id db = elim (get_transfer id db) [
  | err not_found ↦ err (coded code_not_found)
  | err e ↦ err e
  | ok t ↦
      if not caller.is_staff && not (str_eq t.customer_id caller.customer_id)
      then err (coded code_forbidden)
      else ok t
]

-- The checks before the transaction.
unfoldable pub check_cmd : CreateCmd → Result SagaError (Unit {0})
check_cmd cmd =
    if str_eq cmd.customer_id ""
    then err (coded code_unauthenticated)
    else if str_eq cmd.idempotency_key ""
    then err (coded code_idempotency_key_required)
    else elim (validate_spec cmd.type cmd.from_account_id cmd.to_account_id cmd.to_account_number
        cmd.amount cmd.currency) [ ok _ ↦ ok tt | err _ ↦ err (coded code_invalid_argument) ]

module _ {W : Type 0} (clients : Clients W) where
  -- CreateTransfer after its transaction.
  unfoldable pub drive_created :
      ℕ → String → String → (ℕ → ℕ) → World W → Option (Result SagaError Transfer × World W)
  drive_created rounds id existing clock w =
      if str_eq existing ""
      then drive clients rounds id clock w
      else elim (get_transfer existing w.db) [
        | err e ↦ some (err e, w)
        | ok t ↦
            if is_terminal t.state then some (ok t, w) else drive clients rounds existing clock w
      ]

module _ (sha256_hex : String → String) (format_int : ℤ → String) where
  -- `hash`
  unfoldable pub hash : CreateCmd → String
  hash cmd = sha256_hex (
      cmd.type
      ++ "|"
      ++ cmd.from_account_id
      ++ "|"
      ++ cmd.to_account_id
      ++ "|"
      ++ cmd.to_account_number
      ++ "|"
      ++ format_int cmd.amount
      ++ "|"
      ++ cmd.currency)

  abbrev pub new_key : String → ℕ → CreateCmd → IdempotencyKey
  new_key id now cmd = record {
    customer_id = cmd.customer_id;
    key = cmd.idempotency_key;
    transfer_id = id;
    request_hash = hash cmd;
    created_at = now;
  }

  -- The transaction where the key is there: the transfer that has it.
  unfoldable pub seen_before : CreateCmd → TransferTx String
  seen_before cmd db = elim (get_key cmd.customer_id cmd.idempotency_key db) [
    | err e ↦ err e
    | ok k ↦
        if str_eq k.request_hash (hash cmd)
        then ok (k.transfer_id, db)
        else err (coded code_idempotency_conflict)
  ]

  -- The transaction: the empty text where the transfer is new.
  unfoldable pub create_tx : String → ℕ → CreateCmd → TransferTx String
  create_tx id now cmd db = elim (try_insert_key (new_key id now cmd) db) [
    | err e ↦ err e
    | ok (false, db₁) ↦ seen_before cmd db₁
    | ok (true, db₁) ↦ elim (insert_transfer (new_transfer id now cmd) db₁) [
      | err e ↦ err e
      | ok (_, db₂) ↦ elim (append_event id created created db₂) [
        | err e ↦ err e
        | ok (_, db₃) ↦ ok ("", db₃)
      ]
    ]
  ]

  module _ {W : Type 0} (clients : Clients W) where
    -- `CreateTransfer`; `drawn` is none where the id could not be drawn.
    unfoldable pub create_transfer :
        ℕ
        → Option String
        → ℕ
        → (ℕ → ℕ)
        → CreateCmd
        → World W
        → Option (Result SagaError Transfer × World W)
    create_transfer rounds drawn now clock cmd w = elim (check_cmd cmd) [
      | err e ↦ some (err e, w)
      | ok _ ↦ elim drawn [
        | none ↦ some (err (coded code_internal), w)
        | some id ↦
            let (r, db') = commit (create_tx id now cmd) w.db in
            let w' : World W = record w { db = db' } in
            elim r [
              | err e ↦ some (err e, w')
              | ok existing ↦ drive_created clients rounds id existing clock w'
            ]
      ]
    ]
