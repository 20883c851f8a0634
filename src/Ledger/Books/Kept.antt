-- ===== src/Ledger/Books/Kept.antt =====
-- Proofs about a hold that was captured or released: ReleaseHold, the sweep and PlaceHold leave its row.
use bank_core.Prelude.{
  ℕ, ◌≡◌, refl, ◌≢◌, ◌⊎◌, inl, inr, arith, String, str_eq, str_eq_iff, true, false, ◌||◌, List, [],
  ◌∷◌, Option, some, Option-cases, Bool-cases, string_discrete, ne_of_test, ◌∙◌,
}
use bank_core.Prelude.Int.{ℤ}
use bank_core.Prelude.Dict.{lookup}
use bank_core.Prelude.Results.{Result, ok, err, Result-cases}
use bank_core.Ledger.Domain.{
  Account, Balance, Hold, hold_active, hold_captured, hold_released, release_hold,
}
use bank_core.Ledger.Store.{
  Fault, domain, not_found, ref_conflict, held_underflow, db_error, AccountRef, Db, find_row,
  lock_balance, lock_hold_by_id, insert_hold, update_balance, get_account_by_ref,
  get_hold_by_reference, within_tx,
}
use bank_core.Ledger.Store.Lemmas.{set_status, within_tx_keeps, >>=-eq-ok, insert_hold-ok}
use bank_core.Ledger.Service.{
  AppError, to_app_err, place_new_hold, reserve, place_hold, place_hold_tx, settle_release,
  release_hold_tx, release_hold_op, sweep_holds,
}
use bank_core.Ledger.Books.Holds.{settle_release-eq}
use bank_core.Ledger.Books.Sweep.{find-other}
use bank_core.Ledger.Books.Place.{tables_after, place_new_hold-eq}

released≢captured : hold_released ≢ hold_captured
unfolding string_discrete
released≢captured = ne_of_test hold_released hold_captured refl

captured≢active : hold_captured ≢ hold_active
unfolding string_discrete
captured≢active = ne_of_test hold_captured hold_active refl

released≢active : hold_released ≢ hold_active
unfolding string_discrete
released≢active = ne_of_test hold_released hold_active refl

pub update_balance-holds :
    (b : Balance) (db db' : Db) → update_balance b db ≡ ok (tt, db') → db'.holds ≡ db.holds
unfolding update_balance
update_balance-holds b db db' e = ground arith

module _ (h : Hold) (over : (h.status ≡ hold_captured) ⊎ (h.status ≡ hold_released)) where
  abbrev pub Stays : Db → Type 0
  Stays db = find_row (λ g. str_eq g.id h.id) db.holds ≡ some h

  pub not_active : h.status ≢ hold_active
  not_active e = elim over [
    | inl c ↦ absurd (ground (arith, c, e, captured≢active))
    | inr r ↦ absurd (ground (arith, r, e, released≢active))
  ]

  unreleased : (r : Hold) → ¬ (release_hold h ≡ ok (r, true))
  unfolding release_hold
  unreleased r e = elim over [
    | inl c ↦ absurd (ground (arith, c, e, released≢captured))
    | inr x ↦ absurd (ground (arith, x, e))
  ]

  -- A status set on the row of another id.
  pub set-Stays :
      (id status : String) (db db' : Db)
      → id ≢ h.id
      → db'.holds ≡ set_status id status db.holds
      → Stays db
      → Stays db'
  set-Stays id status db db' other tables stays =
      rw tables
        (find-other h.id id status db.holds (ground (arith, other, str_eq_iff h.id id)) ∙ stays)

  -- The row that an id leads to is not this one, if it is another hold.
  pub row-id :
      (id : String) (g : Hold) (db : Db)
      → Stays db
      → find_row (λ r. str_eq r.id id) db.holds ≡ some g
      → id ≡ h.id
      → g ≡ h
  row-id id g db stays found same = ground (arith, stays, rw same at found)

  pub found-own :
      (id : String) (rows : List Hold) (g : Hold)
      → find_row (λ r. str_eq r.id id) rows ≡ some g
      → g.id ≡ id
  found-own id [] g e = absurd (ground arith)
  found-own id (r ∷ rows) g e = elim (Bool-cases (str_eq r.id id)) [
    | inl hit ↦ ground (arith, hit, e, str_eq_iff r.id id)
    | inr miss ↦ found-own id rows g (ground (arith, miss, e))
  ]

  pub release-Stays :
      (id : String) (db db' : Db) (out : Hold)
      → Stays db
      → release_hold_tx id db ≡ ok (out, db')
      → Stays db'
  unfolding release_hold_tx lock_hold_by_id
  release-Stays id db db' out stays e =
      elim (Option-cases (find_row (λ g. str_eq g.id id) db.holds)) [
        | inl missing ↦ absurd (ground arith)
        | inr (g, found) ↦
            let own = found-own id db.holds g found in
            elim (Result-cases (release_hold g)) [
              | inl ((r, true), changed) ↦ elim (Option-cases (lookup g.account_id db.balances)) [
                | inl missing ↦ absurd (
                    unfold settle_release lock_balance in
                    ground (arith, found, changed, missing, e))
                | inr (b, there) ↦
                    let (_, tables) =
                      settle_release-eq db g r out db' b there
                        (ground (arith, found, changed, e)) in
                    set-Stays g.id hold_released db db'
                      (λ same. absurd (
                        unreleased r
                          (rw (row-id id g db stays found (ground (arith, own, same))) at changed)))
                      (ground (arith, tables)) stays
              ]
              | inl ((r, false), kept) ↦
                  let tables : (db ≡ db') = ground (arith, found, kept, e) in rw (← tables) stays
              | inr (x, refused) ↦ absurd (ground (arith, found, refused, e))
            ]
      ]

  pub sweep_holds-Stays : (gs : List Hold) (db : Db) → Stays db → Stays (sweep_holds gs db)
  unfolding sweep_holds release_hold_op
  sweep_holds-Stays [] db stays = stays
  sweep_holds-Stays (g ∷ gs) db stays = sweep_holds-Stays gs (release_hold_op g.id db).1 (
      within_tx_keeps Stays (release_hold_tx g.id) db stays
        (λ out db' done. release-Stays g.id db db' out stays done))

  reserved-Stays :
      (b : Balance) (n out : Hold) (db db' : Db)
      → Stays db
      → reserve b n db ≡ ok (out, db')
      → Stays db'
  unfolding reserve
  reserved-Stays b n out db db' stays e =
      let (_, db₁, inserted, rest) = >>=-eq-ok (insert_hold n) _ db e in
      let (_, db₂, written, final) = >>=-eq-ok (update_balance _) _ db₁ rest in
      let (_, fresh, tables) = insert_hold-ok n db db₁ inserted in
      let kept = update_balance-holds _ db₁ db₂ written in
      let same : (db₂ ≡ db') = ground (arith, final) in
      let rows : (db'.holds ≡ n ∷ db.holds) = ground (arith, kept, same, tables) in
      elim (Bool-cases (str_eq n.id h.id)) [
        | inr other ↦ ground (arith, rows, other, stays)
        | inl hit ↦
            let own : (n.id ≡ h.id) = ground (arith, hit, str_eq_iff n.id h.id) in
            absurd (ground (arith, stays, rw own at fresh))
      ]

  placed-Stays :
      (id : String) (acct : Account) (amount : ℤ) (currency ref_type ref_id : String) (at : ℕ)
      (db db' : Db) (out : Hold)
      → Stays db
      → place_new_hold id acct amount currency ref_type ref_id at db ≡ ok (out, db')
      → Stays db'
  placed-Stays id acct amount currency ref_type ref_id at db db' out stays e =
      elim (Option-cases (lookup acct.id db.balances)) [
        | inl missing ↦ absurd (unfold place_new_hold lock_balance in ground (arith, missing, e))
        | inr (b, there) ↦
            let (_, reserved) =
              place_new_hold-eq id acct amount currency ref_type ref_id at db db' out b there e in
            reserved-Stays b _ out db db' stays reserved
      ]

  place-Stays :
      (id : String) (ref : AccountRef) (amount : ℤ) (currency ref_type ref_id : String) (at : ℕ)
      (db db' : Db) (out : Hold)
      → Stays db
      → place_hold_tx id ref amount currency ref_type ref_id at db ≡ ok (out, db')
      → Stays db'
  unfolding place_hold_tx
  place-Stays id ref amount currency ref_type ref_id at db db' out stays e =
      elim (Result-cases (get_account_by_ref ref db)) [
        | inr (x, unknown) ↦ absurd (ground arith)
        | inl (acct, known) ↦ elim (Option-cases (get_hold_by_reference ref_type ref_id db)) [
          | inr (existing, replayed) ↦ let same : (db ≡ db') = ground arith in rw (← same) stays
          | inl fresh ↦
              placed-Stays id acct amount currency ref_type ref_id at db db' out stays
                (ground arith)
        ]
      ]

  retried :
      (db : Db) (r : Result Fault Hold × Db) (again : Option (Result AppError Hold × Db))
      → Stays r.1
      → Stays (tables_after again db)
      → Stays (
          tables_after
            (elim r.0 [
              | ok hold ↦ some (ok hold, r.1)
              | err ref_conflict ↦ again
              | err e ↦ some (err (to_app_err e), r.1)
            ])
            db)
  retried db (ok hold, db') again step rest = step
  retried db (err ref_conflict, db') again step rest = rest
  retried db (err (domain x), db') again step rest = step
  retried db (err not_found, db') again step rest = step
  retried db (err held_underflow, db') again step rest = step
  retried db (err db_error, db') again step rest = step

  pub place_hold-Stays :
      (ids : List String) (ref : AccountRef) (amount : ℤ) (currency ref_type ref_id : String)
      (at : ℕ) (db : Db)
      → Stays db
      → Stays (tables_after (place_hold ids ref amount currency ref_type ref_id at db) db)
  unfolding place_hold
  place_hold-Stays [] ref amount currency ref_type ref_id at db stays = stays
  place_hold-Stays (id ∷ ids) ref amount currency ref_type ref_id at db stays =
      let step =
        within_tx_keeps Stays (place_hold_tx id ref amount currency ref_type ref_id at) db stays
          (λ out db' done.
            place-Stays id ref amount currency ref_type ref_id at db db' out stays done) in
      let again = place_hold-Stays ids ref amount currency ref_type ref_id at db stays in
      elim (Bool-cases (str_eq ref_type "" || str_eq ref_id "")) [
        | inl empty ↦ rw empty stays
        | inr given ↦ rw given (
            retried db (within_tx (place_hold_tx id ref amount currency ref_type ref_id at) db)
              (place_hold ids ref amount currency ref_type ref_id at db) step again)
      ]
