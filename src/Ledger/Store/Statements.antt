-- ===== src/Ledger/Store/Statements.antt =====
-- services/ledger/internal/adapters/postgres/store.go: each method with its statement in
-- queries.sql and the constraints of the tables that can refuse it. A unique violation becomes
-- `ref_conflict` where the method calls `mapErr`. Foreign keys are not modelled: every row that a
-- statement refers to was read in the same transaction.
use bank_core.Prelude.{
  ℕ, String, str_eq, Bool, true, false, not, ◌&&◌, ◌||◌, if◌then◌else◌, ◌==◌, List, [], ◌∷◌, ◌++◌,
  Option, none, some,
}
use bank_core.Prelude.Int.{pos, ltb_ℤ, leb_ℤ, eqb_ℤ}
use bank_core.Prelude.Dict.{Dict, lookup}
use bank_core.Prelude.Sort.{sort_by}
use bank_core.Prelude.Results.{Result, ok, err}
use bank_core.Ledger.Domain.{
  Account, Balance, Hold, account_not_found, type_customer, status_active, valid_currency,
}
use bank_core.Ledger.Store.Tables.{
  Fault, domain, not_found, ref_conflict, db_error, AccountRef, PostingView, EntryView, EntryRow,
  EntryRef, PostingRow, Message, Db, Tx,
}

-- `SELECT … WHERE …` of one row.
abbrev pub find_row : {A : Type 0} → (A → Bool) → List A → Option A
find_row p [] = none
find_row p (x ∷ xs) = if p x then some x else find_row p xs

-- `UPDATE … WHERE …`
abbrev pub update_rows : {A : Type 0} → (A → Bool) → (A → A) → List A → List A
update_rows p f [] = []
update_rows p f (x ∷ xs) = (if p x then f x else x) ∷ update_rows p f xs

abbrev pub is_some : {A : Type 0} → Option A → Bool
is_some none = false
is_some (some _) = true

-- `pgx.ErrNoRows` by `mapErr`
abbrev pub or_not_found : {A : Type 0} → Option A → Result Fault A
or_not_found none = err not_found
or_not_found (some a) = ok a

unfoldable pub account_by_external : String → Db → Option Account
account_by_external x db = find_row (λ a. str_eq a.external_id x) db.accounts

unfoldable pub account_by_code : String → Db → Option Account
account_by_code x db = find_row (λ a. str_eq a.internal_code x) db.accounts

unfoldable pub account_by_id : String → Db → Option Account
account_by_id x db = find_row (λ a. str_eq a.id x) db.accounts

-- `getAccountByRef`
unfoldable pub get_account_by_ref : AccountRef → Db → Result Fault Account
get_account_by_ref ref db =
    let row =
      if not (str_eq ref.external_id "")
      then account_by_external ref.external_id db
      else if not (str_eq ref.internal_code "")
      then account_by_code ref.internal_code db
      else if not (str_eq ref.ledger_id "")
      then account_by_id ref.ledger_id db
      else none in
    elim row [ some a ↦ ok a | none ↦ err (domain account_not_found) ]

-- `getEntryRef`
unfoldable pub get_entry_ref : String → String → Db → Result Fault (String × ℕ)
get_entry_ref ref_type ref_id db =
    elim (find_row (λ r. str_eq r.reference_type ref_type && str_eq r.reference_id ref_id)
      db.entry_refs) [ some r ↦ ok (r.entry_id, r.occurred_at) | none ↦ err not_found ]

-- The join of `GetEntryPostings`: the postings of an entry with the external ids of their accounts.
unfoldable pub entry_postings : String → ℕ → Db → List PostingRow → List PostingView
entry_postings entry_id at db [] = []
entry_postings entry_id at db (p ∷ ps) =
    let rest = entry_postings entry_id at db ps in
    if str_eq p.entry_id entry_id && p.occurred_at == at
    then (elim (account_by_id p.account_id db) [
      | none ↦ rest
      | some a ↦
          record {
            id = p.id;
            entry_id = p.entry_id;
            account_id = p.account_id;
            external_account_id = a.external_id;
            amount = p.amount;
            currency = p.currency;
            occurred_at = p.occurred_at;
          }
          ∷ rest
    ])
    else rest

-- `getEntryWithPostings`
unfoldable pub get_entry_with_postings : String → ℕ → Db → Result Fault EntryView
get_entry_with_postings entry_id at db =
    elim (find_row (λ e. str_eq e.id entry_id && e.occurred_at == at) db.entries) [
      | none ↦ err not_found
      | some e ↦ ok (record {
        id = e.id;
        reference_type = e.reference_type;
        reference_id = e.reference_id;
        occurred_at = e.occurred_at;
        postings = sort_by (λ p. p.id) (entry_postings entry_id at db db.postings);
      })
    ]

-- `InsertEntry`: the key is (id, occurred_at).
unfoldable pub insert_entry : EntryRow → Tx (Unit {0})
insert_entry e db =
    if is_some (find_row (λ r. str_eq r.id e.id && r.occurred_at == e.occurred_at) db.entries)
    then err ref_conflict
    else ok (tt, record db { entries = e ∷ db.entries })

-- `InsertEntryRef`: the key is (reference_type, reference_id).
unfoldable pub insert_entry_ref : EntryRef → Tx (Unit {0})
insert_entry_ref r db =
    let same = λ (q : EntryRef).
      str_eq q.reference_type r.reference_type && str_eq q.reference_id r.reference_id in
    if is_some (find_row same db.entry_refs)
    then err ref_conflict
    else ok (tt, record db { entry_refs = r ∷ db.entry_refs })

-- `InsertPosting`: the amount is not 0, and the key is (id, occurred_at). No `mapErr` here.
unfoldable pub insert_posting : PostingView → Tx (Unit {0})
insert_posting p db =
    let row : PostingRow = record {
      id = p.id;
      entry_id = p.entry_id;
      account_id = p.account_id;
      amount = p.amount;
      currency = p.currency;
      occurred_at = p.occurred_at;
    } in
    let taken =
      is_some (find_row (λ q. str_eq q.id p.id && q.occurred_at == p.occurred_at) db.postings) in
    if eqb_ℤ p.amount (pos 0) || taken
    then err db_error
    else ok (tt, record db { postings = row ∷ db.postings })

-- `LockBalance`
unfoldable pub lock_balance : String → Db → Result Fault Balance
lock_balance account_id db = or_not_found (lookup account_id db.balances)

-- A row of `account_balances` is written where it is; a key with no row changes nothing.
abbrev pub update : String → Balance → Dict Balance → Dict Balance
update k v [] = []
update k v (e ∷ d) =
    (if str_eq k e.0
      then (e.0, record (e.1) { balance = v.balance; held = v.held; version = v.version })
      else e)
    ∷ update k v d

-- `UpdateBalance`: the table wants `held >= 0`, of a row that is there.
unfoldable pub update_balance : Balance → Tx (Unit {0})
update_balance b db =
    if is_some (lookup b.account_id db.balances) && ltb_ℤ b.held (pos 0)
    then err db_error
    else ok (tt, record db { balances = update b.account_id b db.balances })

-- `GetHoldByReference`
unfoldable pub get_hold_by_reference : String → String → Db → Option Hold
get_hold_by_reference ref_type ref_id db =
    find_row (λ h. str_eq h.reference_type ref_type && str_eq h.reference_id ref_id) db.holds

-- `LockHoldByID`
unfoldable pub lock_hold_by_id : String → Db → Result Fault Hold
lock_hold_by_id id db = or_not_found (find_row (λ h. str_eq h.id id) db.holds)

-- `InsertHold`: the key is id, the reference is unique and the amount is positive.
unfoldable pub insert_hold : Hold → Tx (Unit {0})
insert_hold h db =
    if leb_ℤ h.amount (pos 0)
    then err db_error
    else if is_some (find_row (λ r. str_eq r.id h.id) db.holds)
        || is_some (get_hold_by_reference h.reference_type h.reference_id db)
    then err ref_conflict
    else ok (tt, record db { holds = h ∷ db.holds })

-- `SetHoldStatus`
unfoldable pub set_hold_status : String → String → Tx (Unit {0})
set_hold_status id status db = ok (
  tt,
  record db {
    holds = update_rows (λ h. str_eq h.id id) (λ h. record h { status = status }) db.holds;
  },
)

-- `InsertOutbox`
unfoldable pub insert_outbox : Message → Tx (Unit {0})
insert_outbox m db = ok (tt, record db { outbox = db.outbox ++ (m ∷ []) })

-- `UpsertCustomerAccount`: the new row's id comes from the database.
unfoldable pub upsert_customer_account : String → String → String → Tx Account
upsert_customer_account new_id external_id currency db =
    let acct : Account = record {
      id = new_id;
      external_id = external_id;
      internal_code = "";
      type = type_customer;
      currency = currency;
      status = status_active;
    } in
    let row : Balance = record {
      account_id = new_id;
      currency = currency;
      balance = pos 0;
      held = pos 0;
      version = pos 0;
    } in
    elim (account_by_external external_id db) [
      | some existing ↦ ok (existing, db)
      | none ↦
          if not (valid_currency currency)
          then err db_error
          else if is_some (account_by_id new_id db)
          then err ref_conflict
          else ok (
            acct,
            record db {
              accounts = acct ∷ db.accounts;
              balances = elim (lookup new_id db.balances) [
                | none ↦ (new_id, row) ∷ db.balances
                | some _ ↦ db.balances
              ];
            },
          )
    ]
