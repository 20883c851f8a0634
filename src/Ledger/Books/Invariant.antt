-- ===== src/Ledger/Books/Invariant.antt =====
-- The invariant of the ledger's tables (docs/services/ledger-service.md, invariants 1, 3 and 4).
use bank_core.Prelude.{
  ◌≡◌, ◌⊎◌, String, str_eq, ◌&&◌, if◌then◌else◌, List, [], ◌∷◌, none, some, All,
}
use bank_core.Prelude.Int.{ℤ, pos, ◌+ℤ◌, ◌≤ℤ◌, ◌<ℤ◌}
use bank_core.Prelude.Int64.{IsInt64}
use bank_core.Prelude.Dict.{lookup}
use bank_core.Ledger.Domain.{
  Account, Balance, Hold, type_customer, hold_active, hold_captured, hold_released,
}
use bank_core.Ledger.Domain.Holds.{IsRow}
use bank_core.Ledger.Store.{PostingRow, Db, account_by_id}
use bank_core.Ledger.Store.Lemmas.{HasUniqueIds}

-- `SumPostingsForAccount`, as an integer with no range.
abbrev pub sum_for : String → List PostingRow → ℤ
sum_for a [] = pos 0
sum_for a (p ∷ ps) = (if str_eq a p.account_id then p.amount else pos 0) +ℤ sum_for a ps

-- What the active holds of an account reserve.
abbrev pub held_for : String → List Hold → ℤ
held_for a [] = pos 0
held_for a (h ∷ hs) =
    (if str_eq a h.account_id && str_eq h.status hold_active then h.amount else pos 0)
    +ℤ held_for a hs

-- All the money that was posted in a currency.
abbrev pub posted_in : String → List PostingRow → ℤ
posted_in c [] = pos 0
posted_in c (p ∷ ps) = (if str_eq c p.currency then p.amount else pos 0) +ℤ posted_in c ps

-- A row of `holds` as the table allows it.
pub record IsHold (h : Hold) : Type 0 where
  pub amount_pos : pos 0 <ℤ h.amount
  pub amount_range : IsInt64 h.amount
  pub status_known :
      (h.status ≡ hold_active) ⊎ (h.status ≡ hold_captured) ⊎ (h.status ≡ hold_released)

-- A row of `account_balances`: its numbers fit, its balance is the sum of the account's postings
-- and what is held is what the active holds reserve.
pub record IsBalanced (a : String) (b : Balance) (db : Db) : Type 0 where
  pub row : IsRow b
  pub own_id : b.account_id ≡ a
  pub balance_sum : b.balance ≡ sum_for a db.postings
  pub held_sum : b.held ≡ held_for a db.holds

pub record IsConsistent (db : Db) : Type 0 where
  pub keyed : All (λ acct. account_by_id acct.id db ≡ some acct) db.accounts
  pub balanced : (a : String) (b : Balance) → lookup a db.balances ≡ some b → IsBalanced a b db
  pub unused :
      (a : String)
      → lookup a db.balances ≡ none
      → (sum_for a db.postings ≡ pos 0) × (held_for a db.holds ≡ pos 0)
  pub covered :
      (a : String) (b : Balance) (acct : Account)
      → lookup a db.balances ≡ some b
      → account_by_id a db ≡ some acct
      → acct.type ≡ type_customer
      → b.held ≤ℤ b.balance
  pub holds_ok : All IsHold db.holds
  pub holds_unique : HasUniqueIds db.holds
  pub conserved : (c : String) → posted_in c db.postings ≡ pos 0
