-- ===== src/Ledger/Books/Returns.antt =====
-- Proofs about the attempts of PlaceHold.
use bank_core.Prelude.{
  ℕ, ◌≡◌, ◌≢◌, inl, inr, arith, String, str_eq, ◌||◌, List, ◌∷◌, none, some, Bool-cases,
  Option-cases,
}
use bank_core.Prelude.Int.{ℤ}
use bank_core.Prelude.Dict.{lookup}
use bank_core.Prelude.Results.{Result, ok, err, Result-cases}
use bank_core.Apperr.{code_invalid_argument}
use bank_core.Ledger.Domain.{Account, Balance, Hold, can_place_hold}
use bank_core.Ledger.Store.{
  domain, not_found, ref_conflict, held_underflow, db_error, AccountRef, Db, find_row,
  get_account_by_ref, get_hold_by_reference, lock_balance, insert_hold, update_balance, within_tx,
}
use bank_core.Ledger.Service.{
  AppError, coded, to_app_err, reserve, place_new_hold, place_hold_tx, place_hold,
}

reserve-no_conflict :
    (b : Balance) (h : Hold) (db : Db)
    → find_row (λ r. str_eq r.id h.id) db.holds ≡ none
    → get_hold_by_reference h.reference_type h.reference_id db ≡ none
    → reserve b h db ≢ err ref_conflict
unfolding reserve insert_hold update_balance
reserve-no_conflict b h db fresh unused e = ground arith

place_new_hold-no_conflict :
    (id : String) (acct : Account) (amount : ℤ) (currency ref_type ref_id : String) (at : ℕ)
    (db : Db)
    → find_row (λ r. str_eq r.id id) db.holds ≡ none
    → get_hold_by_reference ref_type ref_id db ≡ none
    → place_new_hold id acct amount currency ref_type ref_id at db ≢ err ref_conflict
unfolding place_new_hold lock_balance
place_new_hold-no_conflict id acct amount currency ref_type ref_id at db fresh unused e =
    elim (Option-cases (lookup acct.id db.balances)) [
      | inl missing ↦ ground arith
      | inr (b, found) ↦
          let h : Hold = record {
            id = id;
            account_id = acct.id;
            amount = amount;
            currency = currency;
            reference_type = ref_type;
            reference_id = ref_id;
            status = "active";
            expires_at = at;
          } in
          elim (Result-cases (can_place_hold b acct.type amount)) [
            | inr (x, refused) ↦ ground arith
            | inl (_, allowed) ↦ ground (arith, reserve-no_conflict b h db fresh unused)
          ]
    ]

place_hold_tx-no_conflict :
    (id : String) (ref : AccountRef) (amount : ℤ) (currency ref_type ref_id : String) (at : ℕ)
    (db : Db)
    → find_row (λ r. str_eq r.id id) db.holds ≡ none
    → place_hold_tx id ref amount currency ref_type ref_id at db ≢ err ref_conflict
unfolding place_hold_tx
place_hold_tx-no_conflict id ref amount currency ref_type ref_id at db fresh e =
    elim (Result-cases (get_account_by_ref ref db)) [
      | inr (x, unknown) ↦ unfold get_account_by_ref in ground arith
      | inl (acct, known) ↦ elim (Option-cases (get_hold_by_reference ref_type ref_id db)) [
        | inl unused ↦ ground (
          arith,
          place_new_hold-no_conflict id acct amount currency ref_type ref_id at db fresh unused,
        )
        | inr (h, placed) ↦ ground arith
      ]
    ]

-- PlaceHold that draws an id no hold has returns at its first attempt, whatever ids would follow.
pub place_hold_returns :
    (id : String) (ids : List String) (ref : AccountRef) (amount : ℤ)
    (currency ref_type ref_id : String) (at : ℕ) (db : Db)
    → find_row (λ r. str_eq r.id id) db.holds ≡ none
    → (r : Result AppError Hold × Db) × (place_hold
          (id ∷ ids)
          ref
          amount
          currency
          ref_type
          ref_id
          at
          db
        ≡ some r)
unfolding place_hold within_tx
place_hold_returns id ids ref amount currency ref_type ref_id at db fresh =
    let calm = place_hold_tx-no_conflict id ref amount currency ref_type ref_id at db fresh in
    elim (Bool-cases (str_eq ref_type "" || str_eq ref_id "")) [
      | inl blank ↦ ((err (coded code_invalid_argument), db), ground arith)
      | inr given ↦
          elim (Result-cases (place_hold_tx id ref amount currency ref_type ref_id at db)) [
            | inl ((h, db'), placed) ↦ ((ok h, db'), ground arith)
            | inr (ref_conflict, raced) ↦ absurd (calm raced)
            | inr (domain x, refused) ↦ ((err (to_app_err (domain x)), db), ground arith)
            | inr (not_found, refused) ↦ ((err (to_app_err not_found), db), ground arith)
            | inr (held_underflow, refused) ↦ ((err (to_app_err held_underflow), db), ground arith)
            | inr (db_error, refused) ↦ ((err (to_app_err db_error), db), ground arith)
          ]
    ]
