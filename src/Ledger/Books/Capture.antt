-- ===== src/Ledger/Books/Capture.antt =====
-- Capturing the hold of a posting (step 4 of postOnce).
use bank_core.Prelude.{
  ◌≡◌, refl, ◌≢◌, inl, inr, arith, String, str_eq, ◌||◌, not, if◌then◌else◌, [], ◌∷◌, Option, none,
  some, All, Bool-cases, Option-cases, string_discrete, ne_of_test,
}
use bank_core.Prelude.Int.{ℤ, pos, neg, ◌+ℤ◌, ◌≤ℤ◌, int_laws, ltb_ℤ}
use bank_core.Prelude.Int64.{neg64, neg64_exact}
use bank_core.Prelude.Dict.{Dict, get_or}
use bank_core.Prelude.Results.{ok, Result-cases}
use bank_core.Ledger.Domain.{Hold, hold_active, hold_captured, capture_hold}
use bank_core.Ledger.Store.{Db, find_row, lock_hold_by_id, set_hold_status}
use bank_core.Ledger.Store.Lemmas.{
  HasUniqueIds, set_status, find_row-All, set_status-HasUniqueIds, set_status-All,
}
use bank_core.Ledger.Service.{capture_step}
use bank_core.Ledger.Books.Invariant.{IsConsistent, IsHold, held_for}
use bank_core.Ledger.Books.Sums.{held_for-set_status, held_for_nonneg}

-- The hold that a posting names, if it names one.
abbrev pub named_hold : String → Db → Option Hold
named_hold hold_id db =
    if str_eq hold_id "" then none else find_row (λ h. str_eq h.id hold_id) db.holds

captured≢active : hold_captured ≢ hold_active
unfolding string_discrete
captured≢active = ne_of_test hold_captured hold_active refl

capture_hold-eq :
    (h : Hold) (debit : ℤ) {h' : Hold}
    → capture_hold h debit ≡ ok h'
    → (h.status ≡ hold_active) × (h' ≡ record h { status = hold_captured })
unfolding capture_hold
capture_hold-eq h debit e = ground arith

-- A capture goes through only for an active hold of the same reference.
pub capture_step-eq :
    (ref_type ref_id hold_id : String) (delta adj : Dict ℤ) (db db' : Db) (h : Hold)
    → named_hold hold_id db ≡ some h
    → capture_step ref_type ref_id hold_id delta db ≡ ok (adj, db')
    → (h.status ≡ hold_active)
      × (adj ≡ (h.account_id, neg64 h.amount) ∷ [])
      × (db' ≡ record db { holds = set_status h.id hold_captured db.holds })
unfolding capture_step lock_hold_by_id set_hold_status
capture_step-eq ref_type ref_id hold_id delta adj db db' h named e =
    let net = get_or delta h.account_id (pos 0) in
    elim (Bool-cases
      (not (str_eq h.reference_type ref_type) || not (str_eq h.reference_id ref_id))) [
        | inl foreign ↦ absurd (ground arith)
        | inr own ↦
            elim (Result-cases (capture_hold h (if ltb_ℤ (pos 0) net then pos 0 else net))) [
              | inr (x, refused) ↦ absurd (ground arith)
              | inl (h', captured) ↦
                  let (active, same) =
                    capture_hold-eq h (if ltb_ℤ (pos 0) net then pos 0 else net) captured in
                  ground arith
            ]
      ]

pub capture_step-none :
    (ref_type ref_id hold_id : String) (delta adj : Dict ℤ) (db db' : Db)
    → named_hold hold_id db ≡ none
    → capture_step ref_type ref_id hold_id delta db ≡ ok (adj, db')
    → (adj ≡ []) × (db' ≡ db)
unfolding capture_step lock_hold_by_id
capture_step-none ref_type ref_id hold_id delta adj db db' named e = ground arith

-- What a capture leaves: only the holds change, they stay in order, each account's active holds
-- reserve less by exactly the adjustment, and they reserve no negative amount.
pub record Captured (adj : Dict ℤ) (db db' : Db) : Type 0 where
  pub tables : db' ≡ record db { holds = db'.holds }
  pub holds_ok : All IsHold db'.holds
  pub holds_unique : HasUniqueIds db'.holds
  pub reserves :
      (a : String)
      → (held_for a db'.holds ≡ held_for a db.holds +ℤ get_or adj a (pos 0))
        × (pos 0 ≤ℤ held_for a db'.holds)
        × (get_or adj a (pos 0) ≤ℤ pos 0)

get_or-single :
    (a k : String) (v : ℤ) → get_or ((k, v) ∷ []) a (pos 0) ≡ (if str_eq a k then v else pos 0)
get_or-single a k v = ground arith

capture_found :
    (h : Hold) (db : Db)
    → IsConsistent db
    → find_row (λ g. str_eq g.id h.id) db.holds ≡ some h
    → h.status ≡ hold_active
    → IsHold h
    → Captured
        ((h.account_id, neg64 h.amount) ∷ [])
        db
        (record db { holds = set_status h.id hold_captured db.holds })
capture_found h db c found active hold =
    let exact : (neg64 h.amount ≡ neg h.amount) =
      neg64_exact h.amount (omega (int_laws, hold.amount_pos, hold.amount_range)) in
    let fine =
      set_status-All IsHold h.id hold_captured db.holds
        (λ g k. record {
          amount_pos = k.amount_pos;
          amount_range = k.amount_range;
          status_known = inr (inl refl);
        })
        c.holds_ok in
    record {
      tables = refl;
      holds_ok = fine;
      holds_unique = set_status-HasUniqueIds h.id hold_captured db.holds c.holds_unique;
      reserves = λ a. (
        rw
            (
              held_for-set_status a h.id hold_captured h db.holds c.holds_unique found active
                  captured≢active,
              exact,
              get_or-single,
            )
            (elim (Bool-cases (str_eq a h.account_id)) [
              | inl same ↦ rw same (omega int_laws)
              | inr other ↦ rw other (omega int_laws)
            ]),
        held_for_nonneg a (set_status h.id hold_captured db.holds) fine,
        rw (exact, get_or-single)
            (elim (Bool-cases (str_eq a h.account_id)) [
              | inl same ↦ rw same (omega (int_laws, hold.amount_pos))
              | inr other ↦ rw other (omega int_laws)
            ]),
      );
    }

pub capture_step-Captured :
    (ref_type ref_id hold_id : String) (delta adj : Dict ℤ) (db db' : Db)
    → IsConsistent db
    → capture_step ref_type ref_id hold_id delta db ≡ ok (adj, db')
    → Captured adj db db'
capture_step-Captured ref_type ref_id hold_id delta adj db db' c e =
    elim (Option-cases (named_hold hold_id db)) [
      | inl unnamed ↦
          let (no_adj, same) =
            capture_step-none ref_type ref_id hold_id delta adj db db' unnamed e in
          rw (no_adj, same)
            (record {
              tables = refl;
              holds_ok = c.holds_ok;
              holds_unique = c.holds_unique;
              reserves =
                  λ a. (omega int_laws, held_for_nonneg a db.holds c.holds_ok, omega int_laws);
            })
      | inr (h, named) ↦
          let (active, one_adj, tables) =
            capture_step-eq ref_type ref_id hold_id delta adj db db' h named e in
          let found : (find_row (λ g. str_eq g.id hold_id) db.holds ≡ some h) = ground arith in
          let (hold, test) =
            find_row-All IsHold (λ g. str_eq g.id hold_id) db.holds h c.holds_ok found in
          let own_id : (h.id ≡ hold_id) = ground arith in
          rw (one_adj, tables) (capture_found h db c (simp own_id found) active hold)
    ]
