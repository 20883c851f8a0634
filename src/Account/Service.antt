-- ===== src/Account/Service.antt =====
-- services/account/internal/app/service.go: the operations. `W` is what lies outside the service; a call
-- of the ledger answers and may change it. What is drawn (ids, digits) is an argument.
use bank_core.Prelude.{
  ℕ, String, str_eq, Bool, not, ◌&&◌, if◌then◌else◌, List, [], ◌∷◌, ◌++◌, Option, none, some,
}
use bank_core.Prelude.Int.{ℤ, pos}
use bank_core.Prelude.Results.{Result, ok, err}
use bank_core.Apperr.{
  GoError, code_unauthenticated, code_invalid_argument, code_internal, code_not_found,
  code_forbidden,
}
use bank_core.Money.{valid_currency}
use bank_core.Account.Numbers.{
  generate_number, valid_number, can_transition, status_active, status_frozen,
}
use bank_core.Account.Tables.{
  AccountFault, no_rows, coded, client, AccountRow, AccountView, account_opened, AccountDb,
  AccountTx, commit, upsert_customer, create_row, view, get_by_id, get_by_number, update_status,
  balance_of,
}

-- The claims of a caller that the service reads.
pub record Caller : Type 0 where
  pub customer_id : String
  pub is_staff : Bool

-- `BalanceView`; `as_of` is 0 for the zero time.
pub record BalanceView : Type 0 where
  pub account_id : String
  pub balance : ℤ
  pub held : ℤ
  pub available : ℤ
  pub as_of : ℕ

-- `LedgerClient`, less the postings.
pub record LedgerClient (W : Type 0) : Type 0 where
  pub create_account : String → String → W → Result GoError (Unit {0}) × W
  pub get_balances : List String → W → Result GoError (List BalanceView) × W

-- `GetAccount`
unfoldable pub get_account : Caller → String → AccountDb → Result AccountFault AccountView
get_account caller id db = elim (get_by_id id db) [
  | err no_rows ↦ err (coded code_not_found)
  | err e ↦ err e
  | ok a ↦
      if not caller.is_staff && not (str_eq a.user_id caller.customer_id)
      then err (coded code_forbidden)
      else ok a
]

-- `ResolveByNumber`
unfoldable pub resolve_by_number : List ℕ → AccountDb → Result AccountFault AccountView
resolve_by_number number db =
    if not (valid_number number)
    then err (coded code_invalid_argument)
    else elim (get_by_number number db) [ err no_rows ↦ err (coded code_not_found) | r ↦ r ]

-- The update of setStatus, for the account as it was read; the tables may have changed since.
unfoldable pub change_status :
    AccountView → String → String → AccountDb → Result AccountFault AccountView × AccountDb
change_status a id to db =
    if str_eq a.status to
    then (ok a, db)
    else if not (can_transition a.status to)
    then (err (coded code_invalid_argument), db)
    else let (r, db') = commit (update_status id to) db in
      (elim r [ err e ↦ err e | ok row ↦ ok (view row a.user_id) ], db')

-- `setStatus`
unfoldable pub set_status :
    Caller → String → String → AccountDb → Result AccountFault AccountView × AccountDb
set_status caller id to db =
    if not caller.is_staff then (err (coded code_forbidden), db) else elim (get_by_id id db) [
      | err no_rows ↦ (err (coded code_not_found), db)
      | err e ↦ (err e, db)
      | ok a ↦ change_status a id to db
    ]

-- `Freeze`
abbrev pub freeze_account :
    Caller → String → AccountDb → Result AccountFault AccountView × AccountDb
freeze_account caller id = set_status caller id status_frozen

-- `Unfreeze`
abbrev pub unfreeze_account :
    Caller → String → AccountDb → Result AccountFault AccountView × AccountDb
unfreeze_account caller id = set_status caller id status_active

-- An account with its balance from the projection.
unfoldable pub projected_balance : String → AccountDb → BalanceView
projected_balance id db = elim (balance_of id db) [
  | some b ↦ record {
    account_id = b.account_id;
    balance = b.balance;
    held = pos 0;
    available = b.balance;
    as_of = b.as_of;
  }
  | none ↦ record { account_id = id; balance = pos 0; held = pos 0; available = pos 0; as_of = 0 }
]

-- The transaction of OpenAccount.
unfoldable pub open_tx : AccountRow → String → AccountTx AccountView
open_tx a user_id db = elim (create_row a db) [
  | err e ↦ err e
  | ok (_, db₁) ↦
      ok
        (view a user_id, record db₁ { outbox = db₁.outbox ++ account_opened (view a user_id) ∷ [] })
]

module _ {W : Type 0} (ledger : LedgerClient W) where
  -- OpenAccount from the call of the ledger on.
  unfoldable pub open_mirrored :
      AccountRow → String → AccountDb → W → Result AccountFault AccountView × (AccountDb × W)
  open_mirrored a user_id db w =
      let (r, w') = ledger.create_account a.id a.currency w in
      elim r [
        | err e ↦ (err (client e), (db, w'))
        | ok _ ↦ let (opened, db') = commit (open_tx a user_id) db in (opened, (db', w'))
      ]

  -- OpenAccount with a number and an id.
  unfoldable pub open_numbered :
      Caller
      → String
      → List ℕ
      → String
      → String
      → ℕ
      → AccountDb
      → W
      → Result AccountFault AccountView × (AccountDb × W)
  open_numbered caller currency number id new_customer now db w =
      let (r, db₁) = commit (upsert_customer new_customer caller.customer_id) db in
      elim r [
        | err e ↦ (err e, (db₁, w))
        | ok customer ↦
            open_mirrored
              (record {
                id = id;
                customer_id = customer.id;
                number = number;
                currency = currency;
                status = status_active;
                opened_at = now;
              })
              caller.customer_id db₁ w
      ]

  -- `OpenAccount`; the digits and the id that are drawn are none where that fails.
  unfoldable pub open_account :
      Caller
      → String
      → Option (List ℕ)
      → Option String
      → String
      → ℕ
      → AccountDb
      → W
      → Result AccountFault AccountView × (AccountDb × W)
  open_account caller currency digits drawn new_customer now db w =
      if str_eq caller.customer_id ""
      then (err (coded code_unauthenticated), (db, w))
      else if not (valid_currency currency)
      then (err (coded code_invalid_argument), (db, w))
      else elim digits [
        | none ↦ (err (coded code_internal), (db, w))
        | some random ↦ elim (generate_number random) [
          | err _ ↦ (err (coded code_internal), (db, w))
          | ok number ↦ elim drawn [
            | none ↦ (err (coded code_internal), (db, w))
            | some id ↦ open_numbered caller currency number id new_customer now db w
          ]
        ]
      ]
