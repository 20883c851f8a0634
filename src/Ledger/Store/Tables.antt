-- ===== src/Ledger/Store/Tables.antt =====
-- The tables of the ledger (services/ledger/migrations/000001_init.up.sql), the types of
-- services/ledger/internal/app/ports.go, and a transaction on the tables.
use bank_core.Prelude.{ℕ, String, List}
use bank_core.Prelude.Int.{ℤ}
use bank_core.Prelude.Dict.{Dict}
use bank_core.Prelude.Results.{Result, ok, err}
use bank_core.Ledger.Domain.{DomainError, Account, Balance, Hold}

-- The errors of a statement: the sentinels of ports.go, the domain's, the underflow of `held`,
-- and any other error of the database, such as a failed CHECK.
pub data Fault : Type 0 where
  domain : DomainError → Fault
  not_found ref_conflict held_underflow db_error : Fault

pub record AccountRef : Type 0 where
  pub external_id : String
  pub internal_code : String
  pub ledger_id : String

pub record PostingSpec : Type 0 where
  pub ref : AccountRef
  pub amount : ℤ
  pub currency : String

-- Times are microseconds.
pub record PostingView : Type 0 where
  pub id : String
  pub entry_id : String
  pub account_id : String
  pub external_account_id : String
  pub amount : ℤ
  pub currency : String
  pub occurred_at : ℕ

pub record EntryView : Type 0 where
  pub id : String
  pub reference_type : String
  pub reference_id : String
  pub occurred_at : ℕ
  pub postings : List PostingView

-- A row of `journal_entries`.
pub record EntryRow : Type 0 where
  pub id : String
  pub reference_type : String
  pub reference_id : String
  pub occurred_at : ℕ

-- A row of `journal_entry_refs`.
pub record EntryRef : Type 0 where
  pub reference_type : String
  pub reference_id : String
  pub entry_id : String
  pub occurred_at : ℕ

-- A row of `postings`.
pub record PostingRow : Type 0 where
  pub id : String
  pub entry_id : String
  pub account_id : String
  pub amount : ℤ
  pub currency : String
  pub occurred_at : ℕ

-- The payload of an outbox row of the ledger, `TransactionPosted`.
pub record TransactionPosted : Type 0 where
  pub entry : EntryView
  pub account_id : String
  pub external_account_id : String
  pub currency : String
  pub balance_after : ℤ
  pub version : ℤ

pub record Message : Type 0 where
  pub topic : String
  pub key : String
  pub event : TransactionPosted

-- `balances` is keyed by the account's id.
pub record Db : Type 0 where
  pub accounts : List Account
  pub balances : Dict Balance
  pub entries : List EntryRow
  pub entry_refs : List EntryRef
  pub postings : List PostingRow
  pub holds : List Hold
  pub outbox : List Message

-- A step of a transaction. The tables after an error do not matter: the transaction rolls back.
abbrev pub Tx : Type 0 → Type 0
Tx A = Db → Result Fault (A × Db)

infixl 5 ◌>>=◌ ◌>>◌
abbrev pub ◌>>=◌ : {A B : Type 0} → Tx A → (A → Tx B) → Tx B
◌>>=◌ m f db = elim (m db) [ ok (a, db') ↦ f a db' | err e ↦ err e ]

abbrev pub ◌>>◌ : {A B : Type 0} → Tx A → Tx B → Tx B
m >> k = m >>= λ _. k

abbrev pub pure : {A : Type 0} → A → Tx A
pure a db = ok (a, db)

abbrev pub fail : {A : Type 0} → Fault → Tx A
fail e db = err e

-- A statement that only reads.
abbrev pub query : {A : Type 0} → (Db → Result Fault A) → Tx A
query f db = elim (f db) [ ok a ↦ ok (a, db) | err e ↦ err e ]

-- A call of the pure domain.
abbrev pub lift : {A : Type 0} → Result DomainError A → Tx A
lift r db = elim r [ ok a ↦ ok (a, db) | err e ↦ err (domain e) ]

-- `WithinTx`, with `TxManager.WithTx` of pkg/pgtx: an error rolls back.
unfoldable pub within_tx : {A : Type 0} → Tx A → Db → Result Fault A × Db
within_tx m db = elim (m db) [ ok (a, db') ↦ (ok a, db') | err e ↦ (err e, db) ]
