-- ===== src/Account/Tables.antt =====
-- services/account/internal/adapters/postgres/db/queries.sql.go: each statement on the tables of
-- services/account/migrations/000001_init.up.sql. Times are microseconds, and an
-- account number is the list of its bytes.
use bank_core.Prelude.{
  ℕ, String, str_eq, Bool, true, false, not, ◌&&◌, ◌||◌, ◌==◌, if◌then◌else◌, List, [], ◌∷◌, Option,
  none, some,
}
use bank_core.Prelude.Int.{ℤ, ltb_ℤ}
use bank_core.Prelude.Results.{Result, ok, err}
use bank_core.Apperr.{Code, GoError}
use bank_core.Ledger.Store.{find_row, update_rows, is_some}

-- An error of the service: of the database, with a code, or of a client.
pub data AccountFault : Type 0 where
  no_rows db_error : AccountFault
  coded : Code → AccountFault
  client : GoError → AccountFault

-- `==` on account numbers.
abbrev pub same_number : List ℕ → List ℕ → Bool
same_number [] [] = true
same_number (x ∷ xs) (y ∷ ys) = x == y && same_number xs ys
same_number _ _ = false

pub record Customer : Type 0 where
  pub id : String
  pub user_id : String
  pub tier : String

pub record AccountRow : Type 0 where
  pub id : String
  pub customer_id : String
  pub number : List ℕ
  pub currency : String
  pub status : String
  pub opened_at : ℕ

-- A row of `balances`.
pub record Projected : Type 0 where
  pub account_id : String
  pub balance : ℤ
  pub version : ℤ
  pub as_of : ℕ

-- An account as the service shows it.
pub record AccountView : Type 0 where
  pub id : String
  pub customer_id : String
  pub user_id : String
  pub number : List ℕ
  pub currency : String
  pub status : String
  pub opened_at : ℕ

-- The payload of an outbox row.
pub data AccountEvent : Type 0 where
  account_opened : AccountView → AccountEvent
  account_frozen : String → String → AccountEvent

pub record AccountDb : Type 0 where
  pub customers : List Customer
  pub accounts : List AccountRow
  pub balances : List Projected
  pub outbox : List AccountEvent

-- A transaction: where it fails, the tables stay.
abbrev pub AccountTx : Type 0 → Type 0
AccountTx A = AccountDb → Result AccountFault (A × AccountDb)

-- `WithTx`
unfoldable pub commit : {A : Type 0} → AccountTx A → AccountDb → Result AccountFault A × AccountDb
commit m db = elim (m db) [ ok (a, db') ↦ (ok a, db') | err e ↦ (err e, db) ]

-- `UpsertCustomer`; the id is used where the customer is new.
unfoldable pub upsert_customer : String → String → AccountTx Customer
upsert_customer id user_id db = elim (find_row (λ c. str_eq c.user_id user_id) db.customers) [
  | some c ↦ ok (c, db)
  | none ↦
      let c : Customer = record { id = id; user_id = user_id; tier = "default" } in
      ok (c, record db { customers = c ∷ db.customers })
]

-- `CreateAccount`: the id and the number are unique, the customer exists, and the texts of `CHECK`.
unfoldable pub create_row : AccountRow → AccountTx (Unit {0})
create_row a db =
    if is_some
      (find_row (λ (r : AccountRow). str_eq r.id a.id || same_number r.number a.number) db.accounts)
    then err db_error
    else if not (is_some (find_row (λ (c : Customer). str_eq c.id a.customer_id) db.customers))
    then err db_error
    else if not (str_eq a.currency "KZT") && not (str_eq a.currency "USD")
    then err db_error
    else ok (tt, record db { accounts = a ∷ db.accounts })

-- `rowToView`
abbrev pub view : AccountRow → String → AccountView
view a user_id = record {
  id = a.id;
  customer_id = a.customer_id;
  user_id = user_id;
  number = a.number;
  currency = a.currency;
  status = a.status;
  opened_at = a.opened_at;
}

-- The join with `customers`.
unfoldable pub with_user : AccountRow → AccountDb → Result AccountFault AccountView
with_user a db = elim (find_row (λ (c : Customer). str_eq c.id a.customer_id) db.customers) [
  | some c ↦ ok (view a c.user_id)
  | none ↦ err no_rows
]

abbrev pub has_id : String → AccountRow → Bool
has_id id a = str_eq a.id id

-- `GetAccountByID`
unfoldable pub get_by_id : String → AccountDb → Result AccountFault AccountView
get_by_id id db = elim (find_row (has_id id) db.accounts) [
  | some a ↦ with_user a db
  | none ↦ err no_rows
]

-- `GetAccountByNumber`
unfoldable pub get_by_number : List ℕ → AccountDb → Result AccountFault AccountView
get_by_number number db =
    elim (find_row (λ (a : AccountRow). same_number a.number number) db.accounts) [
      | some a ↦ with_user a db
      | none ↦ err no_rows
    ]

-- `GetAccountStatus`
unfoldable pub get_status : String → AccountDb → Result AccountFault String
get_status id db = elim (find_row (has_id id) db.accounts) [
  | some a ↦ ok a.status
  | none ↦ err no_rows
]

-- `UpdateAccountStatus`: the row as it is then.
unfoldable pub update_status : String → String → AccountTx AccountRow
update_status id status db = elim (find_row (has_id id) db.accounts) [
  | none ↦ err no_rows
  | some a ↦ ok (
    record a { status = status },
    record db {
      accounts = update_rows (has_id id) (λ r. record r { status = status }) db.accounts;
    },
  )
]

abbrev pub of_account : String → Projected → Bool
of_account id b = str_eq b.account_id id

-- `UpsertBalanceGuarded`: only a newer version overwrites a row; the account exists.
unfoldable pub upsert_balance : Projected → AccountTx (Unit {0})
upsert_balance b db =
    if not (is_some (find_row (has_id b.account_id) db.accounts))
    then err db_error
    else elim (find_row (of_account b.account_id) db.balances) [
      | none ↦ ok (tt, record db { balances = b ∷ db.balances })
      | some old ↦
          if ltb_ℤ old.version b.version
          then ok (
            tt,
            record db { balances = update_rows (of_account b.account_id) (λ _. b) db.balances },
          )
          else ok (tt, db)
    ]

-- The row of an account in `balances`.
abbrev pub balance_of : String → AccountDb → Option Projected
balance_of id db = find_row (of_account id) db.balances
