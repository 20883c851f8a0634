-- ===== src/Ledger/Service/Holds.antt =====
-- services/ledger/internal/app/service.go: CreateAccount, PlaceHold, ReleaseHold; and sweep of
-- sweeper.go. The clock and the ids of uuid.NewV7 are arguments.
use bank_core.Prelude.{
  ℕ, zero, suc, String, str_eq, Bool, true, false, not, ◌&&◌, ◌||◌, if◌then◌else◌, ltb, List, [],
  ◌∷◌, Option, none, some,
}
use bank_core.Prelude.Int.{ℤ, pos, ltb_ℤ, eqb_ℤ}
use bank_core.Prelude.Int64.{add64, sub64}
use bank_core.Prelude.Results.{Result, ok, err, map_err}
use bank_core.Apperr.{code_invalid_argument, code_currency_mismatch, code_already_exists}
use bank_core.Ledger.Domain.{
  Account, Balance, Hold, type_customer, status_active, hold_active, hold_released,
  duplicate_reference, currency_mismatch, account_frozen, can_place_hold, release_hold,
}
use bank_core.Ledger.Store.{
  Fault, domain, ref_conflict, held_underflow, AccountRef, Db, Tx, ◌>>=◌, ◌>>◌, pure, fail, query,
  lift, within_tx, get_account_by_ref, lock_balance, update_balance, get_hold_by_reference,
  lock_hold_by_id, insert_hold, set_hold_status, upsert_customer_account,
}
use bank_core.Ledger.Service.Errors.{AppError, coded, to_app_err}
use bank_core.Money.{valid_currency as money_valid_currency}

abbrev pub fail_if : Bool → Fault → Tx (Unit {0})
fail_if true e = fail e
fail_if false e = pure tt

-- `CreateAccount`
unfoldable pub create_account : String → String → String → Db → Result AppError Account × Db
create_account new_id external_id currency db =
    if str_eq external_id ""
    then (err (coded code_invalid_argument), db)
    else if not (money_valid_currency currency)
    then (err (coded code_currency_mismatch), db)
    else let (r, db') = within_tx (upsert_customer_account new_id external_id currency) db in
      elim r [
        | err e ↦ (err (to_app_err e), db')
        | ok acc ↦
            if not (str_eq acc.currency currency)
            then (err (coded code_already_exists), db')
            else (ok acc, db')
      ]

-- The writes of `PlaceHold`.
unfoldable pub reserve : Balance → Hold → Tx Hold
reserve b hold = do
  insert_hold hold
  update_balance (record b { held = add64 b.held hold.amount })
  pure hold

-- The fresh hold of `PlaceHold`, from the checks on the currency on.
unfoldable pub place_new_hold : String → Account → ℤ → String → String → String → ℕ → Tx Hold
place_new_hold id acct amount currency ref_type ref_id expires_at = do
  fail_if (not (str_eq currency acct.currency)) (domain currency_mismatch)
  fail_if (str_eq acct.type type_customer && not (str_eq acct.status status_active))
      (domain account_frozen)
  b ← query (lock_balance acct.id)
  lift (can_place_hold b acct.type amount)
  let hold : Hold = record {
    id = id;
    account_id = acct.id;
    amount = amount;
    currency = currency;
    reference_type = ref_type;
    reference_id = ref_id;
    status = hold_active;
    expires_at = expires_at;
  }
  reserve b hold

-- The transaction of `PlaceHold`: a replay of the reference, or a fresh hold.
unfoldable pub place_hold_tx : String → AccountRef → ℤ → String → String → String → ℕ → Tx Hold
place_hold_tx id ref amount currency ref_type ref_id expires_at = do
  acct ← query (get_account_by_ref ref)
  found ← query (λ db. ok (get_hold_by_reference ref_type ref_id db))
  elim found [
    | some existing ↦ do
      fail_if (not (str_eq existing.account_id acct.id) || not (eqb_ℤ existing.amount amount))
          (domain duplicate_reference)
      pure existing
    | none ↦ place_new_hold id acct amount currency ref_type ref_id expires_at
  ]

-- `PlaceHold`, on the ids that its attempts draw: it tries again on a conflict. `none` means that
-- the ids ran out.
unfoldable pub place_hold :
    List String
    → AccountRef
    → ℤ
    → String
    → String
    → String
    → ℕ
    → Db
    → Option (Result AppError Hold × Db)
place_hold [] ref amount currency ref_type ref_id expires_at db = none
place_hold (id ∷ ids) ref amount currency ref_type ref_id expires_at db =
    let again = place_hold ids ref amount currency ref_type ref_id expires_at db in
    let (r, db') = within_tx (place_hold_tx id ref amount currency ref_type ref_id expires_at) db in
    if str_eq ref_type "" || str_eq ref_id ""
    then some (err (coded code_invalid_argument), db)
    else elim r [
      | ok hold ↦ some (ok hold, db')
      | err ref_conflict ↦ again
      | err e ↦ some (err (to_app_err e), db')
    ]

-- What `ReleaseHold` does where the hold `h` changed: its amount goes off the account's holds.
unfoldable pub settle_release : Hold → Hold → Tx Hold
settle_release h released = do
  b ← query (lock_balance h.account_id)
  let held = sub64 b.held h.amount
  fail_if (ltb_ℤ held (pos 0)) held_underflow
  update_balance (record b { held = held })
  set_hold_status h.id hold_released
  pure released

-- The transaction of `ReleaseHold`.
unfoldable pub release_hold_tx : String → Tx Hold
release_hold_tx hold_id = do
  h ← query (lock_hold_by_id hold_id)
  released ← lift (release_hold h)
  if released.1 then settle_release h released.0 else pure released.0

-- `ReleaseHold`
unfoldable pub release_hold_op : String → Db → Result AppError Hold × Db
release_hold_op hold_id db =
    let (r, db') = within_tx (release_hold_tx hold_id) db in (map_err to_app_err r, db')

-- `WHERE status = 'active' AND expires_at < now`
abbrev pub expired : ℕ → List Hold → List Hold
expired now [] = []
expired now (h ∷ hs) =
    let rest = expired now hs in
    if str_eq h.status hold_active && ltb h.expires_at now then h ∷ rest else rest

-- `ORDER BY expires_at`; rows that expire together stay in the table's order.
abbrev pub insert_by_expiry : Hold → List Hold → List Hold
insert_by_expiry h [] = h ∷ []
insert_by_expiry h (g ∷ gs) =
    let rest = insert_by_expiry h gs in
    if ltb g.expires_at h.expires_at then g ∷ rest else h ∷ g ∷ gs

abbrev pub by_expiry : List Hold → List Hold
by_expiry [] = []
by_expiry (h ∷ hs) = insert_by_expiry h (by_expiry hs)

-- `LIMIT n`
abbrev pub limited : ℕ → List Hold → List Hold
limited n [] = []
limited zero (h ∷ hs) = []
limited (suc n) (h ∷ hs) = h ∷ limited n hs

-- `ListExpiredHolds`
unfoldable pub list_expired_holds : ℕ → ℕ → Db → List Hold
list_expired_holds now limit db = limited limit (by_expiry (expired now db.holds))

-- The loop of `sweep` over the holds found: an error is logged, and the loop goes on.
unfoldable pub sweep_holds : List Hold → Db → Db
sweep_holds [] db = db
sweep_holds (h ∷ hs) db = sweep_holds hs (release_hold_op h.id db).1

-- `sweep` at a time `now`.
unfoldable pub sweep : ℕ → Db → Db
sweep now db = sweep_holds (list_expired_holds now 100 db) db
