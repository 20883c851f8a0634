-- ===== src/Account/Opening.antt =====
-- Proofs about `OpenAccount` of services/account/internal/app/service.go.
use bank_core.Prelude.{
  ℕ, ◌≡◌, arith, inl, inr, String, true, length, ◌==◌, List, Option, Bool-cases, Option-cases,
}
use bank_core.Prelude.Results.{ok, Result-cases}
use bank_core.Account.Numbers.{
  status_active, all_digits, generate_number, valid_number, valid_number-generate_number,
}
use bank_core.Account.Tables.{
  AccountRow, AccountView, AccountDb, commit, upsert_customer, create_row,
}
use bank_core.Account.Service.{
  Caller, LedgerClient, open_tx, open_mirrored, open_numbered, open_account,
}

open_tx-ok :
    (a : AccountRow) (user_id : String) (db db' : AccountDb) (v : AccountView)
    → commit (open_tx a user_id) db ≡ (ok v, db')
    → (v.id ≡ a.id) × (v.number ≡ a.number) × (v.currency ≡ a.currency)
unfolding open_tx commit
open_tx-ok a user_id db db' v h = elim (Result-cases (create_row a db)) [
  | inr (e, refused) ↦ absurd (ground (arith, refused, h))
  | inl ((_, db₁), made) ↦ ground (arith, made, h)
]

generate_number-valid :
    (random number : List ℕ) → generate_number random ≡ ok number → valid_number number ≡ true
unfolding generate_number
generate_number-valid random number h = elim (Bool-cases (all_digits random)) [
  | inr other ↦ absurd (ground (arith, other, h))
  | inl digits ↦ elim (Bool-cases (length random == 13)) [
    | inr short ↦ absurd (ground (arith, short, h))
    | inl long ↦
        let (n, e, valid) = valid_number-generate_number random (ground (arith, long)) digits in
        ground (arith, e, h, valid)
  ]
]

module _ {W : Type 0} (ledger : LedgerClient W) where
  open_mirrored-ok :
      (a : AccountRow) (user_id : String) (db db' : AccountDb) (w w' : W) (v : AccountView)
      → open_mirrored ledger a user_id db w ≡ (ok v, (db', w'))
      → (ledger.create_account v.id v.currency w ≡ (ok tt, w')) × (v.number ≡ a.number)
  unfolding open_mirrored
  open_mirrored-ok a user_id db db' w w' v h =
      elim (Result-cases (ledger.create_account a.id a.currency w).0) [
        | inr (e, refused) ↦ absurd (ground (arith, refused, h))
        | inl (_, mirrored) ↦
            let (id, number, currency) =
              open_tx-ok a user_id db db' v (ground (arith, mirrored, h)) in
            (ground (arith, mirrored, h, id, currency), number)
      ]

  open_numbered-ok :
      (caller : Caller) (currency : String) (number : List ℕ) (id customer : String) (now : ℕ)
      (db db' : AccountDb) (w w' : W) (v : AccountView)
      → open_numbered ledger caller currency number id customer now db w ≡ (ok v, (db', w'))
      → (ledger.create_account v.id v.currency w ≡ (ok tt, w')) × (v.number ≡ number)
  unfolding open_numbered
  open_numbered-ok caller currency number id customer now db db' w w' v h =
      elim (Result-cases (commit (upsert_customer customer caller.customer_id) db).0) [
        | inr (e, refused) ↦ absurd (ground (arith, refused, h))
        | inl (c, known) ↦
            let row : AccountRow = record {
              id = id;
              customer_id = c.id;
              number = number;
              currency = currency;
              status = status_active;
              opened_at = now;
            } in
            let db₁ = (commit (upsert_customer customer caller.customer_id) db).1 in
            open_mirrored-ok row caller.customer_id db₁ db' w w' v (ground (arith, known, h))
      ]

  -- An account that OpenAccount returns was created in the ledger first, with its id and currency, and
  -- its number is valid.
  pub open_account_mirrored :
      (caller : Caller) (currency : String) (digits : Option (List ℕ)) (drawn : Option String)
      (customer : String) (now : ℕ) (db db' : AccountDb) (w w' : W) (v : AccountView)
      → open_account ledger caller currency digits drawn customer now db w ≡ (ok v, (db', w'))
      → (ledger.create_account v.id v.currency w ≡ (ok tt, w')) × (valid_number v.number ≡ true)
  unfolding open_account
  open_account_mirrored caller currency digits drawn customer now db db' w w' v h =
      elim (Option-cases digits) [
        | inl missing ↦ absurd (ground (arith, missing, h))
        | inr (random, drawn_digits) ↦ elim (Result-cases (generate_number random)) [
          | inr (e, bad) ↦ absurd (ground (arith, drawn_digits, bad, h))
          | inl (number, generated) ↦ elim (Option-cases drawn) [
            | inl missing ↦ absurd (ground (arith, drawn_digits, generated, missing, h))
            | inr (id, drawn_id) ↦
                let (mirrored, same) =
                  open_numbered-ok caller currency number id customer now db db' w w' v
                    (ground (arith, drawn_digits, generated, drawn_id, h)) in
                (mirrored, ground (arith, same, generate_number-valid random number generated))
          ]
        ]
      ]
