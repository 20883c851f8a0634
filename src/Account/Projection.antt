-- ===== src/Account/Projection.antt =====
-- Proofs about the balance projection of services/account/internal/adapters/kafka/consumers.go.
use bank_core.Prelude.{
  ◌≡◌, ◌≢◌, refl, arith, inl, inr, String, str_eq, str_eq_iff, true, false, if◌then◌else◌, List, [],
  ◌∷◌, Option, none, some, Bool-cases, Option-cases,
}
use bank_core.Prelude.Int.{ltb_ℤ}
use bank_core.Ledger.Store.{find_row, update_rows, is_some}
use bank_core.Account.Tables.{
  Projected, AccountDb, commit, has_id, of_account, upsert_balance, balance_of,
}
use bank_core.Account.Consumers.{apply_projection}

-- What one delivery of an event makes of the tables; one that fails leaves them.
abbrev pub deliver : Projected → AccountDb → AccountDb
deliver b db = (commit (apply_projection b) db).1

abbrev pub deliver_all : List Projected → AccountDb → AccountDb
deliver_all [] db = db
deliver_all (b ∷ bs) db = deliver_all bs (deliver b db)

-- What an event makes of an account's row.
abbrev pub newer : Projected → Option Projected → Option Projected
newer b none = some b
newer b (some old) = if ltb_ℤ old.version b.version then some b else some old

find_row-replaced :
    (b old : Projected) (rows : List Projected)
    → find_row (of_account b.account_id) rows ≡ some old
    → find_row (of_account b.account_id) (update_rows (of_account b.account_id) (λ _. b) rows)
      ≡ some b
find_row-replaced b old [] h = absurd (ground arith)
find_row-replaced b old (r ∷ rows) h = elim (Bool-cases (of_account b.account_id r)) [
  | inl hit ↦ ground (arith, hit, (str_eq_iff b.account_id b.account_id).1 refl)
  | inr miss ↦ ground (arith, miss, find_row-replaced b old rows (ground arith))
]

find_row-other :
    (b : Projected) (a : String) (rows : List Projected)
    → str_eq b.account_id a ≡ false
    → find_row (of_account a) (update_rows (of_account b.account_id) (λ _. b) rows)
      ≡ find_row (of_account a) rows
find_row-other b a [] h = refl
find_row-other b a (r ∷ rows) h =
    let ih = find_row-other b a rows h in
    elim (Bool-cases (of_account b.account_id r)) [
      | inl hit ↦
          let apart : (str_eq r.account_id a ≡ false) =
            ground (arith, h, (str_eq_iff r.account_id b.account_id).0 hit) in
          ground (arith, hit, h, ih, apart)
      | inr miss ↦ ground (arith, miss, ih)
    ]

balance_of-own :
    (b : Projected) (db : AccountDb)
    → b.account_id ≢ ""
    → is_some (find_row (has_id b.account_id) db.accounts) ≡ true
    → (balance_of b.account_id (deliver b db) ≡ newer b (balance_of b.account_id db))
      × ((deliver b db).accounts ≡ db.accounts)
unfolding apply_projection upsert_balance commit
balance_of-own b db given there =
    let named : (str_eq b.account_id "" ≡ false) = ground (arith, given) in
    elim (Option-cases (find_row (of_account b.account_id) db.balances)) [
      | inl missing ↦
          ground (arith, named, there, missing, (str_eq_iff b.account_id b.account_id).1 refl)
      | inr (old, found) ↦
          let replaced = find_row-replaced b old db.balances found in
          elim (Bool-cases (ltb_ℤ old.version b.version)) [
            | inl is_newer ↦ ground (arith, named, there, found, is_newer, replaced)
            | inr stale ↦ ground (arith, named, there, found, stale)
          ]
    ]

balance_of-elsewhere :
    (b : Projected) (a : String) (db : AccountDb)
    → str_eq b.account_id a ≡ false
    → (balance_of a (deliver b db) ≡ balance_of a db) × ((deliver b db).accounts ≡ db.accounts)
unfolding apply_projection upsert_balance commit
balance_of-elsewhere b a db apart = elim (Bool-cases (str_eq b.account_id "")) [
  | inl unnamed ↦ ground (arith, unnamed)
  | inr named ↦ elim (Bool-cases (is_some (find_row (has_id b.account_id) db.accounts))) [
    | inr unknown ↦ ground (arith, named, unknown)
    | inl there ↦ elim (Option-cases (find_row (of_account b.account_id) db.balances)) [
      | inl missing ↦ ground (arith, named, there, missing, apart)
      | inr (old, found) ↦
          let kept = find_row-other b a db.balances apart in
          elim (Bool-cases (ltb_ℤ old.version b.version)) [
            | inl is_newer ↦ ground (arith, named, there, found, is_newer, kept)
            | inr stale ↦ ground (arith, named, there, found, stale)
          ]
    ]
  ]
]

pub balance_of-deliver :
    (b : Projected) (a : String) (db : AccountDb)
    → a ≢ ""
    → is_some (find_row (has_id a) db.accounts) ≡ true
    → (balance_of a (deliver b db)
        ≡ (if str_eq b.account_id a then newer b (balance_of a db) else balance_of a db))
      × ((deliver b db).accounts ≡ db.accounts)
balance_of-deliver b a db given there = elim (Bool-cases (str_eq b.account_id a)) [
  | inr other ↦ simp other (balance_of-elsewhere b a db other)
  | inl hit ↦
      let same = (str_eq_iff b.account_id a).0 hit in
      let (row, accounts) =
        balance_of-own b db (ground (arith, given, same)) (ground (arith, there, same)) in
      (ground (arith, hit, row, same), accounts)
]
