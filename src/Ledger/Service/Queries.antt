-- ===== src/Ledger/Service/Queries.antt =====
-- services/ledger/internal/app/service.go: the reads GetTransactionByReference and GetBalances.
use bank_core.Prelude.{String, str_eq, Bool, false, ◌||◌, if◌then◌else◌, List, [], ◌∷◌, none, some}
use bank_core.Prelude.Int.{ℤ}
use bank_core.Prelude.Dict.{Dict}
use bank_core.Prelude.Results.{Result, ok, err}
use bank_core.Apperr.{code_invalid_argument}
use bank_core.Ledger.Domain.{Balance}
use bank_core.Ledger.Store.{
  AccountRef, EntryView, Db, account_by_id, get_account_by_ref, get_entry_ref,
  get_entry_with_postings,
}
use bank_core.Ledger.Service.Errors.{AppError, coded, to_app_err}

-- `GetTransactionByReference`
unfoldable pub get_transaction_by_reference : String → String → Db → Result AppError EntryView
get_transaction_by_reference ref_type ref_id db = elim (get_entry_ref ref_type ref_id db) [
  | err e ↦ err (to_app_err e)
  | ok (entry_id, at) ↦ elim (get_entry_with_postings entry_id at db) [
    | err e ↦ err (to_app_err e)
    | ok view ↦ ok view
  ]
]

-- `BalanceRow`, less the time of its last update, which the tables here do not keep.
pub record BalanceRow : Type 0 where
  pub account_id : String
  pub external_id : String
  pub internal_code : String
  pub currency : String
  pub balance : ℤ
  pub held : ℤ
  pub version : ℤ

abbrev pub is_among : String → List String → Bool
is_among id [] = false
is_among id (x ∷ xs) = str_eq id x || is_among id xs

-- `Store.GetBalances`: the balances of the accounts named, joined with their accounts. The order is
-- the table's.
unfoldable pub balance_rows : List String → Db → Dict Balance → List BalanceRow
balance_rows ids db [] = []
balance_rows ids db ((id, b) ∷ rest) =
    let rows = balance_rows ids db rest in
    if is_among id ids
    then (elim (account_by_id id db) [
      | none ↦ rows
      | some a ↦
          record {
            account_id = id;
            external_id = a.external_id;
            internal_code = a.internal_code;
            currency = b.currency;
            balance = b.balance;
            held = b.held;
            version = b.version;
          }
          ∷ rows
    ])
    else rows

-- The loop of `GetBalances` that resolves the accounts.
unfoldable pub resolve_ids : List AccountRef → Db → Result AppError (List String)
resolve_ids [] db = ok []
resolve_ids (ref ∷ refs) db = elim (get_account_by_ref ref db) [
  | err e ↦ err (to_app_err e)
  | ok acct ↦ elim (resolve_ids refs db) [ err e ↦ err e | ok ids ↦ ok (acct.id ∷ ids) ]
]

-- `GetBalances`
unfoldable pub get_balances : List AccountRef → Db → Result AppError (List BalanceRow)
get_balances [] db = err (coded code_invalid_argument)
get_balances (ref ∷ refs) db = elim (resolve_ids (ref ∷ refs) db) [
  | err e ↦ err e
  | ok ids ↦ ok (balance_rows ids db db.balances)
]
