-- ===== src/Ledger/Domain/Holds.antt =====
-- Balances and holds: the rules of ApplyPosting, CanPlaceHold, CaptureHold and ReleaseHold.
use bank_core.Prelude.{◌≡◌, ◌≢◌, ◌↔◌, ◌-◌, arith, false, String, inl, inr, ◌≤◌, ◌^◌}
use bank_core.Prelude.Int.{
  ℤ, pos, negsuc, ◌+ℤ◌, ◌-ℤ◌, ◌≤ℤ◌, ◌<ℤ◌, nat_abs, ltb_ℤ, int_laws, neg, neg_part,
}
use bank_core.Prelude.Int64.{IsInt64, wrap, add64}
use bank_core.Prelude.Results.{ok, Result-cases}
use bank_core.Ledger.Domain.Entry.{add_checked-ok}
use bank_core.Ledger.Domain.{
  Balance, Hold, type_customer, hold_active, hold_captured, apply_posting, can_place_hold,
  capture_hold, add_checked, available,
}

-- The numbers of a balance row as the table allows them: int64, and nothing held below 0.
pub record IsRow (b : Balance) : Type 0 where
  pub balance_range : IsInt64 b.balance
  pub held_range : IsInt64 b.held
  pub held_nonneg : pos 0 ≤ℤ b.held

-- Where the true difference is not below the int64 range, the test of `Available` is exact.
available_exact :
    (b : Balance)
    → IsRow b
    → neg_part (b.balance -ℤ b.held) ≤ 2 ^ 63
    → available b ≡ b.balance -ℤ b.held
unfolding available wrap ◌-ℤ◌
available_exact b r h = ground arith

pub apply_posting-eq :
    (b : Balance) (type : String) (delta : ℤ) {b' : Balance}
    → apply_posting b type delta ≡ ok b'
    → (add_checked b.balance delta ≡ ok b'.balance)
      × (b'.held ≡ b.held)
      × (b'.account_id ≡ b.account_id)
      × (b'.currency ≡ b.currency)
      × (b'.version ≡ add64 b.version (pos 1))
      × (type ≡ type_customer → ltb_ℤ (available b') (pos 0) ≡ false)
unfolding apply_posting
apply_posting-eq b type delta e = elim (Result-cases (add_checked b.balance delta)) [
  | inl (s, a) ↦ ground arith
  | inr (x, a) ↦ absurd (ground arith)
]

covers_after :
    (b : Balance) (delta : ℤ) (b' : Balance)
    → IsRow b'
    → IsInt64 delta
    → b'.balance ≡ b.balance +ℤ delta
    → b'.held ≡ b.held
    → b.held ≤ℤ b.balance
    → ltb_ℤ (available b') (pos 0) ≡ false
    → b'.held ≤ℤ b'.balance
covers_after b delta b' row hd exact kept cover tested =
    let lower : (neg_part (b'.balance -ℤ b'.held) ≤ 2 ^ 63) = grind (int_laws, exact, kept) in
    grind (int_laws, available_exact b' row lower)

-- ApplyPosting on a row, for a customer one that covers its holds, moves the balance by exactly the
-- delta, bumps the version by one and keeps what is held; a customer still covers the holds.
pub apply_posting-ok :
    (b : Balance) (type : String) (delta : ℤ) (b' : Balance)
    → IsRow b
    → IsInt64 delta
    → (type ≡ type_customer → b.held ≤ℤ b.balance)
    → apply_posting b type delta ≡ ok b'
    → (b'.balance ≡ b.balance +ℤ delta)
      × (b'.held ≡ b.held)
      × (b'.version ≡ add64 b.version (pos 1))
      × IsRow b'
      × (type ≡ type_customer → b'.held ≤ℤ b'.balance)
apply_posting-ok b type delta b' r hd cover e =
    let (added, kept, _, _, bumped, tested) = apply_posting-eq b type delta e in
    let (exact, range) = add_checked-ok b.balance delta r.balance_range hd added in
    let row : IsRow b' = record {
      balance_range = range;
      held_range = rw kept r.held_range;
      held_nonneg = rw kept r.held_nonneg;
    } in
    (
      exact,
      kept,
      bumped,
      row,
      λ customer. covers_after b delta b' row hd exact kept (cover customer) (tested customer),
    )

-- CanPlaceHold lets a customer row take a hold exactly where the amount is positive and what is
-- left after the holds in force covers it.
pub can_place_hold_iff :
    (b : Balance) (amount : ℤ)
    → IsRow b
    → b.held ≤ℤ b.balance
    → (can_place_hold b type_customer amount ≡ ok tt)
      ↔ ((pos 0 <ℤ amount) × (b.held +ℤ amount ≤ℤ b.balance))
unfolding can_place_hold available wrap ◌+ℤ◌ ◌-ℤ◌
can_place_hold_iff b amount r cover = (λ e. ground arith, λ h. ground (arith, h.0, h.1))

-- Where CaptureHold accepts an int64 debit other than the least one, the hold was active, what it returns
-- is the hold captured with no other field changed, and the debit is at most what is held.
pub capture_hold-ok :
    (h h' : Hold) (debit : ℤ)
    → IsInt64 debit
    → debit ≢ negsuc (2 ^ 63 - 1)
    → capture_hold h debit ≡ ok h'
    → (h.status ≡ hold_active)
      × (h' ≡ record h { status = hold_captured })
      × (pos (nat_abs debit) ≤ℤ h.amount)
unfolding capture_hold wrap neg
capture_hold-ok h h' debit hd least e = ground arith

-- At the least int64 the negation wraps, and the debit passes whatever positive amount is held.
pub capture_hold_least :
    (h : Hold)
    → h.status ≡ hold_active
    → pos 0 ≤ℤ h.amount
    → capture_hold h (negsuc (2 ^ 63 - 1)) ≡ ok (record h { status = hold_captured })
unfolding capture_hold wrap neg
capture_hold_least h active amount = ground arith
