-- ===== src/Ledger/Books/Holds.antt =====
-- Proofs about ReleaseHold and the sweep on the tables.
use bank_core.Prelude.{
  ℕ, ◌≡◌, refl, ◌≢◌, inl, inr, arith, String, str_eq, true, false, List, [], ◌∷◌, some, All,
  Option-cases, sym, ◌∙◌, string_discrete, ne_of_test,
}
use bank_core.Prelude.Int.{ℤ, pos, ◌-ℤ◌, ◌≤ℤ◌, int_laws, ltb_ℤ}
use bank_core.Prelude.Int64.{IsInt64, sub64, sub64_exact}
use bank_core.Prelude.Dict.{lookup}
use bank_core.Prelude.Results.{ok, Result-cases}
use bank_core.Ledger.Domain.{
  Account, Balance, Hold, type_customer, hold_active, hold_released, release_hold,
}
use bank_core.Ledger.Store.{
  Db, update, find_row, account_by_id, lock_balance, update_balance, lock_hold_by_id,
  set_hold_status,
}
use bank_core.Ledger.Store.Lemmas.{
  HasUniqueIds, set_status, found_after_update, missing_after_update, find_row-All,
  set_status-HasUniqueIds, set_status-All, within_tx_keeps,
}
use bank_core.Ledger.Service.{
  settle_release, release_hold_tx, release_hold_op, sweep_holds, sweep, list_expired_holds,
}
use bank_core.Ledger.Books.Invariant.{IsConsistent, IsHold, held_for}
use bank_core.Ledger.Books.Sums.{held_for-set_status}

-- The tables with other holds, and with `held` of one account rewritten.
abbrev pub with_holds : Db → Balance → ℤ → List Hold → Db
with_holds db b held hs = record db {
  balances = update b.account_id (record b { held = held }) db.balances;
  holds = hs;
}

module _ (db : Db) (b : Balance) (held : ℤ) (hs : List Hold) (c : IsConsistent db)
    (found : lookup b.account_id db.balances ≡ some b) where
  -- Where the new `held` is what the new holds reserve, and the other accounts' reserves stay, the
  -- books are still in order.
  pub with_holds-IsConsistent :
      IsInt64 held
      → pos 0 ≤ℤ held
      → held ≡ held_for b.account_id hs
      → ((x : String) → x ≢ b.account_id → held_for x hs ≡ held_for x db.holds)
      → ((acct : Account)
          → account_by_id b.account_id db ≡ some acct
          → acct.type ≡ type_customer
          → held ≤ℤ b.balance)
      → All IsHold hs
      → HasUniqueIds hs
      → IsConsistent (with_holds db b held hs)
  unfolding account_by_id
  with_holds-IsConsistent range nonneg exact others cover fine unique = record {
    keyed = c.keyed;
    balanced = λ x b' e.
        elim (found_after_update x b.account_id (record b { held = held }) b db.balances b' found
          e) [
            | inl (same, new) ↦
                let before = c.balanced b.account_id b found in
                rw (new, same)
                  (record {
                    row = record {
                      balance_range = before.row.balance_range;
                      held_range = range;
                      held_nonneg = nonneg;
                    };
                    own_id = refl;
                    balance_sum = before.balance_sum;
                    held_sum = exact;
                  })
            | inr (other, old) ↦
                let before = c.balanced x b' old in
                record {
                  row = before.row;
                  own_id = before.own_id;
                  balance_sum = before.balance_sum;
                  held_sum = before.held_sum ∙ sym (others x other);
                }
          ];
    unused = λ x e.
        let missing =
          missing_after_update x b.account_id (record b { held = held }) db.balances e in
        let before = c.unused x missing in
        (before.0, others x (λ same. absurd (ground (arith, found, missing))) ∙ before.1);
    covered = λ x b' acct e known customer.
        elim (found_after_update x b.account_id (record b { held = held }) b db.balances b' found
          e) [
            | inl (same, new) ↦ rw new (cover acct (rw same at known) customer)
            | inr (other, old) ↦ c.covered x b' acct old known customer
          ];
    holds_ok = fine;
    holds_unique = unique;
    conserved = c.conserved;
  }

released≢active : hold_released ≢ hold_active
unfolding string_discrete
released≢active = ne_of_test hold_released hold_active refl

-- The tables after a release, or the refusal.
pub settle_release-eq :
    (db : Db) (h r out : Hold) (db' : Db) (b : Balance)
    → lookup h.account_id db.balances ≡ some b
    → settle_release h r db ≡ ok (out, db')
    → (ltb_ℤ (sub64 b.held h.amount) (pos 0) ≡ false)
      × (db' ≡ record db {
        balances = update b.account_id (record b { held = sub64 b.held h.amount }) db.balances;
        holds = set_status h.id hold_released db.holds;
      })
unfolding settle_release lock_balance update_balance set_hold_status
settle_release-eq db h r out db' b found e = ground arith

-- Both numbers are not negative, so the difference cannot wrap.
pub sub64-nonneg :
    (a b : ℤ)
    → IsInt64 a
    → IsInt64 b
    → pos 0 ≤ℤ a
    → pos 0 ≤ℤ b
    → (sub64 a b ≡ a -ℤ b) × IsInt64 (sub64 a b)
sub64-nonneg a b ha hb pa pb =
    let range : IsInt64 (a -ℤ b) = unfold ◌-ℤ◌ in ground arith in
    (sub64_exact a b range, rw (sub64_exact a b range) range)

released-IsConsistent :
    (db : Db) (h : Hold) (b : Balance)
    → IsConsistent db
    → find_row (λ g. str_eq g.id h.id) db.holds ≡ some h
    → h.status ≡ hold_active
    → lookup h.account_id db.balances ≡ some b
    → ltb_ℤ (sub64 b.held h.amount) (pos 0) ≡ false
    → IsConsistent
        (with_holds db b (sub64 b.held h.amount) (set_status h.id hold_released db.holds))
released-IsConsistent db h b c held active found tested =
    let before = c.balanced h.account_id b found in
    let hold = (find_row-All IsHold (λ g. str_eq g.id h.id) db.holds h c.holds_ok held).0 in
    let (exact, range) =
      sub64-nonneg b.held h.amount before.row.held_range hold.amount_range before.row.held_nonneg
        (omega (arith, hold.amount_pos)) in
    let after = λ (x : String).
      held_for-set_status x h.id hold_released h db.holds c.holds_unique held active
        released≢active in
    with_holds-IsConsistent db b (sub64 b.held h.amount) (set_status h.id hold_released db.holds) c
      (simp before.own_id found) range (ground arith)
      (exact ∙ (simp before.own_id (grind (int_laws, before.held_sum, after h.account_id))))
      (λ x other. simp (after x) (grind (int_laws, other, before.own_id)))
      (λ acct known customer. grind (
        int_laws,
        exact,
        hold.amount_pos,
        c.covered b.account_id b acct (simp before.own_id found) known customer,
      ))
      (set_status-All IsHold h.id hold_released db.holds
        (λ g ok'. record {
          amount_pos = ok'.amount_pos;
          amount_range = ok'.amount_range;
          status_known = inr (inr refl);
        })
        c.holds_ok)
      (set_status-HasUniqueIds h.id hold_released db.holds c.holds_unique)

settle_release-IsConsistent :
    (db : Db) (h r out : Hold) (db' : Db)
    → IsConsistent db
    → find_row (λ g. str_eq g.id h.id) db.holds ≡ some h
    → h.status ≡ hold_active
    → settle_release h r db ≡ ok (out, db')
    → IsConsistent db'
unfolding lock_balance
settle_release-IsConsistent db h r out db' c held active e =
    elim (Option-cases (lookup h.account_id db.balances)) [
      | inl missing ↦ absurd (unfold settle_release in ground arith)
      | inr (b, found) ↦
          let (tested, tables) = settle_release-eq db h r out db' b found e in
          rw tables (released-IsConsistent db h b c held active found tested)
    ]

-- A hold that ReleaseHold changes was active, if its status is one that the table allows.
release_hold_changed :
    (h r : Hold) → IsHold h → release_hold h ≡ ok (r, true) → h.status ≡ hold_active
unfolding release_hold
release_hold_changed h r k e = ground (arith, k.status_known)

-- Where it changes nothing, what comes back is the hold.
release_hold_tx-IsConsistent :
    (id : String) (db db' : Db) (out : Hold)
    → IsConsistent db
    → release_hold_tx id db ≡ ok (out, db')
    → IsConsistent db'
unfolding release_hold_tx lock_hold_by_id
release_hold_tx-IsConsistent id db db' out c e =
    elim (Option-cases (find_row (λ g. str_eq g.id id) db.holds)) [
      | inl missing ↦ absurd (ground arith)
      | inr (h, found) ↦
          let (ok_h, test) =
            find_row-All IsHold (λ g. str_eq g.id id) db.holds h c.holds_ok found in
          let same : (h.id ≡ id) = ground arith in
          elim (Result-cases (release_hold h)) [
            | inl ((r, true), changed) ↦
                settle_release-IsConsistent db h r out db' c (simp same found)
                  (release_hold_changed h r ok_h changed) (ground arith)
            | inl ((r, false), kept) ↦ let tables : (db ≡ db') = ground arith in rw (← tables) c
            | inr (x, refused) ↦ absurd (ground arith)
          ]
    ]

-- ReleaseHold, released or refused, leaves books in order that were in order.
pub release_hold_op-IsConsistent :
    (id : String) (db : Db) → IsConsistent db → IsConsistent (release_hold_op id db).1
unfolding release_hold_op
release_hold_op-IsConsistent id db c =
    within_tx_keeps IsConsistent (release_hold_tx id) db c
      (λ out db' done. release_hold_tx-IsConsistent id db db' out c done)

sweep_holds-IsConsistent :
    (hs : List Hold) (db : Db) → IsConsistent db → IsConsistent (sweep_holds hs db)
unfolding sweep_holds
sweep_holds-IsConsistent [] db c = c
sweep_holds-IsConsistent (h ∷ hs) db c =
    sweep_holds-IsConsistent hs (release_hold_op h.id db).1 (release_hold_op-IsConsistent h.id db c)

-- A sweep of the expired holds leaves books in order that were in order, whichever of the releases
-- are refused.
pub sweep-IsConsistent : (now : ℕ) (db : Db) → IsConsistent db → IsConsistent (sweep now db)
unfolding sweep
sweep-IsConsistent now db c = sweep_holds-IsConsistent (list_expired_holds now 100 db) db c
