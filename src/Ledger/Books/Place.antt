-- ===== src/Ledger/Books/Place.antt =====
-- Proofs about PlaceHold on the tables.
use bank_core.Prelude.{
  ℕ, ◌≡◌, refl, inl, inr, arith, String, str_eq, false, ◌&&◌, ◌||◌, not, List, [], ◌∷◌, Option,
  none, some, Bool-cases, Option-cases, sym, ◌∙◌,
}
use bank_core.Prelude.Int.{ℤ, pos, ◌+ℤ◌, ◌≤ℤ◌, ◌<ℤ◌, int_laws, ltb_ℤ, leb_ℤ}
use bank_core.Prelude.Int64.{IsInt64, add64, wrap}
use bank_core.Prelude.Dict.{lookup}
use bank_core.Prelude.Results.{Result, ok, err, Result-cases}
use bank_core.Ledger.Domain.{
  Account, Balance, Hold, type_customer, hold_active, status_active, can_place_hold,
}
use bank_core.Ledger.Domain.Holds.{can_place_hold_iff}
use bank_core.Ledger.Store.{
  within_tx, Fault, domain, not_found, ref_conflict, held_underflow, db_error, AccountRef, Db,
  find_row, account_by_id, account_by_code, account_by_external, get_account_by_ref,
  get_hold_by_reference, lock_balance, update_balance, insert_hold,
}
use bank_core.Ledger.Store.Lemmas.{
  find_row-All, within_tx_keeps, >>=-eq-ok, insert_hold-ok, update_balance-ok,
}
use bank_core.Ledger.Service.{
  AppError, to_app_err, reserve, place_new_hold, place_hold_tx, place_hold,
}
use bank_core.Ledger.Books.Invariant.{IsConsistent}
use bank_core.Ledger.Books.Holds.{with_holds, with_holds-IsConsistent}

abbrev new_hold : String → Account → ℤ → String → String → String → ℕ → Hold
new_hold id acct amount currency ref_type ref_id at = record {
  id = id;
  account_id = acct.id;
  amount = amount;
  currency = currency;
  reference_type = ref_type;
  reference_id = ref_id;
  status = hold_active;
  expires_at = at;
}

-- An account that a reference leads to is the one of its id.
pub get_account_by_ref-keyed :
    (ref : AccountRef) (db : Db) (acct : Account)
    → IsConsistent db
    → get_account_by_ref ref db ≡ ok acct
    → account_by_id acct.id db ≡ some acct
unfolding get_account_by_ref account_by_external account_by_code account_by_id
get_account_by_ref-keyed ref db acct c e =
    let external =
      find_row-All (λ a. account_by_id a.id db ≡ some a) (λ a. str_eq a.external_id ref.external_id)
        db.accounts acct c.keyed in
    let code =
      find_row-All (λ a. account_by_id a.id db ≡ some a)
        (λ a. str_eq a.internal_code ref.internal_code) db.accounts acct c.keyed in
    let own =
      find_row-All (λ a. account_by_id a.id db ≡ some a) (λ a. str_eq a.id ref.ledger_id)
        db.accounts acct c.keyed in
    elim (Bool-cases (str_eq ref.external_id "")) [
      | inr given ↦ (external (ground arith)).0
      | inl empty ↦ elim (Bool-cases (str_eq ref.internal_code "")) [
        | inr given ↦ (code (ground arith)).0
        | inl no_code ↦ elim (Bool-cases (str_eq ref.ledger_id "")) [
          | inr given ↦ (own (ground arith)).0
          | inl no_id ↦ absurd (ground arith)
        ]
      ]
    ]

-- Two numbers that are not negative: if the wrapped sum is not negative either, it is exact.
add64-nonneg :
    (a b : ℤ)
    → IsInt64 a
    → IsInt64 b
    → pos 0 ≤ℤ a
    → pos 0 <ℤ b
    → ltb_ℤ (add64 a b) (pos 0) ≡ false
    → (add64 a b ≡ a +ℤ b) × IsInt64 (add64 a b)
unfolding add64 wrap ◌+ℤ◌
add64-nonneg a b ha hb pa pb t = ground arith

reserve-eq :
    (b : Balance) (h out : Hold) (db db' : Db)
    → lookup b.account_id db.balances ≡ some b
    → reserve b h db ≡ ok (out, db')
    → (leb_ℤ h.amount (pos 0) ≡ false)
      × (find_row (λ r. str_eq r.id h.id) db.holds ≡ none)
      × (ltb_ℤ (add64 b.held h.amount) (pos 0) ≡ false)
      × (db' ≡ with_holds db b (add64 b.held h.amount) (h ∷ db.holds))
unfolding reserve
reserve-eq b h out db db' found e =
    let (_, db₁, inserted, rest) = >>=-eq-ok (insert_hold h) _ db e in
    let (positive, fresh, tables₁) = insert_hold-ok h db db₁ inserted in
    let b' = record b { held = add64 b.held h.amount } in
    let (_, db₂, written, final) = >>=-eq-ok (update_balance b') _ db₁ rest in
    let (nonneg, tables₂) = update_balance-ok b' b db₁ db₂ (rw tables₁ found) written in
    (positive, fresh, nonneg, ground arith)

pub place_new_hold-eq :
    (id : String) (acct : Account) (amount : ℤ) (currency ref_type ref_id : String) (at : ℕ)
    (db db' : Db) (out : Hold) (b : Balance)
    → lookup acct.id db.balances ≡ some b
    → place_new_hold id acct amount currency ref_type ref_id at db ≡ ok (out, db')
    → (can_place_hold b acct.type amount ≡ ok tt)
      × (reserve b (new_hold id acct amount currency ref_type ref_id at) db ≡ ok (out, db'))
unfolding place_new_hold lock_balance
place_new_hold-eq id acct amount currency ref_type ref_id at db db' out b found e =
    elim (Bool-cases (str_eq currency acct.currency)) [
      | inr other ↦ absurd (ground arith)
      | inl same ↦
          elim (Bool-cases
            (str_eq acct.type type_customer && not (str_eq acct.status status_active))) [
              | inl frozen ↦ absurd (ground arith)
              | inr live ↦ elim (Result-cases (can_place_hold b acct.type amount)) [
                | inr (x, refused) ↦ absurd (ground arith)
                | inl (_, allowed) ↦ (allowed, ground arith)
              ]
            ]
    ]

-- A fresh active hold whose amount the row has room for.
reserve-IsConsistent :
    (b : Balance) (h out : Hold) (db db' : Db)
    → IsConsistent db
    → lookup b.account_id db.balances ≡ some b
    → h.account_id ≡ b.account_id
    → h.status ≡ hold_active
    → IsInt64 h.amount
    → ((acct : Account)
        → account_by_id b.account_id db ≡ some acct
        → acct.type ≡ type_customer
        → b.held +ℤ h.amount ≤ℤ b.balance)
    → reserve b h db ≡ ok (out, db')
    → IsConsistent db'
reserve-IsConsistent b h out db db' c found own active amount cover e =
    let (positive, fresh, nonneg, tables) = reserve-eq b h out db db' found e in
    let before = c.balanced b.account_id b found in
    let (exact, range) =
      add64-nonneg b.held h.amount before.row.held_range amount before.row.held_nonneg
        (ground arith) nonneg in
    rw tables (
      with_holds-IsConsistent db b (add64 b.held h.amount) (h ∷ db.holds) c found range
        (ground arith) (exact ∙ simp own (grind (int_laws, before.held_sum, active)))
        (λ x other. grind (int_laws, own, other))
        (λ acct known customer. rw exact (cover acct known customer))
        (
          record { amount_pos = ground arith; amount_range = amount; status_known = inl active },
          c.holds_ok,
        )
        (fresh, c.holds_unique))

place_new_hold-IsConsistent :
    (id : String) (acct : Account) (amount : ℤ) (currency ref_type ref_id : String) (at : ℕ)
    (db db' : Db) (out : Hold)
    → IsConsistent db
    → IsInt64 amount
    → account_by_id acct.id db ≡ some acct
    → place_new_hold id acct amount currency ref_type ref_id at db ≡ ok (out, db')
    → IsConsistent db'
unfolding lock_balance
place_new_hold-IsConsistent id acct amount currency ref_type ref_id at db db' out c range known e =
    elim (Option-cases (lookup acct.id db.balances)) [
      | inl missing ↦ absurd (unfold place_new_hold in ground arith)
      | inr (b, found) ↦
          let (allowed, done) =
            place_new_hold-eq id acct amount currency ref_type ref_id at db db' out b found e in
          let before = c.balanced acct.id b found in
          reserve-IsConsistent b (new_hold id acct amount currency ref_type ref_id at) out db db' c
            (simp before.own_id found) (sym before.own_id) refl range
            (λ other other_known customer.
              let same : (other ≡ acct) = ground (arith, before.own_id, known, other_known) in
              let is_customer : (acct.type ≡ type_customer) = ground arith in
              ((can_place_hold_iff b amount before.row
                  (c.covered acct.id b acct found known is_customer)).0
                (rw (← is_customer) allowed)).1)
            done
    ]

place_hold_tx-IsConsistent :
    (id : String) (ref : AccountRef) (amount : ℤ) (currency ref_type ref_id : String) (at : ℕ)
    (db db' : Db) (out : Hold)
    → IsConsistent db
    → IsInt64 amount
    → place_hold_tx id ref amount currency ref_type ref_id at db ≡ ok (out, db')
    → IsConsistent db'
unfolding place_hold_tx
place_hold_tx-IsConsistent id ref amount currency ref_type ref_id at db db' out c range e =
    elim (Result-cases (get_account_by_ref ref db)) [
      | inr (x, unknown) ↦ absurd (ground arith)
      | inl (acct, known) ↦ elim (Option-cases (get_hold_by_reference ref_type ref_id db)) [
        | inr (existing, replayed) ↦ let same : (db ≡ db') = ground arith in rw (← same) c
        | inl fresh ↦
            place_new_hold-IsConsistent id acct amount currency ref_type ref_id at db db' out c
              range (get_account_by_ref-keyed ref db acct c known) (ground arith)
      ]
    ]

-- The tables after PlaceHold, if its attempts came to an end.
abbrev pub tables_after : {A : Type 0} → Option (A × Db) → Db → Db
tables_after none db = db
tables_after (some (_, db')) db = db'

retried :
    (db : Db) (r : Result Fault Hold × Db) (again : Option (Result AppError Hold × Db))
    → IsConsistent r.1
    → IsConsistent (tables_after again db)
    → IsConsistent (
        tables_after
          (elim r.0 [
            | ok hold ↦ some (ok hold, r.1)
            | err ref_conflict ↦ again
            | err e ↦ some (err (to_app_err e), r.1)
          ])
          db)
retried db (ok hold, db') again step rest = step
retried db (err ref_conflict, db') again step rest = rest
retried db (err (domain x), db') again step rest = step
retried db (err not_found, db') again step rest = step
retried db (err held_underflow, db') again step rest = step
retried db (err db_error, db') again step rest = step

-- PlaceHold of an int64 amount, placed, replayed or refused after any number of attempts, leaves
-- books in order that were in order.
pub place_hold-IsConsistent :
    (ids : List String) (ref : AccountRef) (amount : ℤ) (currency ref_type ref_id : String) (at : ℕ)
    (db : Db)
    → IsConsistent db
    → IsInt64 amount
    → IsConsistent (tables_after (place_hold ids ref amount currency ref_type ref_id at db) db)
unfolding place_hold
place_hold-IsConsistent [] ref amount currency ref_type ref_id at db c range = c
place_hold-IsConsistent (id ∷ ids) ref amount currency ref_type ref_id at db c range =
    let step =
      within_tx_keeps IsConsistent (place_hold_tx id ref amount currency ref_type ref_id at) db c
        (λ out db' done.
          place_hold_tx-IsConsistent id ref amount currency ref_type ref_id at db db' out c range
            done) in
    let again = place_hold-IsConsistent ids ref amount currency ref_type ref_id at db c range in
    elim (Bool-cases (str_eq ref_type "" || str_eq ref_id "")) [
      | inl empty ↦ rw empty c
      | inr given ↦ rw given (
          retried db (within_tx (place_hold_tx id ref amount currency ref_type ref_id at) db)
            (place_hold ids ref amount currency ref_type ref_id at db) step again)
    ]
