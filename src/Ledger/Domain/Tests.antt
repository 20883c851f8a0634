-- ===== src/Ledger/Domain/Tests.antt =====
-- Instances of the theorems on the rules of the domain.
use bank_core.Prelude.{
  String, ◌≡◌, ◌⊎◌, ◌↔◌, refl, arith, List, [], ◌∷◌, All, string_discrete, ◌^◌, ◌-◌,
}
use bank_core.Prelude.Int.{ℤ, pos, negsuc, nat_abs, neg, ◌+ℤ◌, ◌-ℤ◌, ◌≤ℤ◌, ◌<ℤ◌}
use bank_core.Prelude.Int64.{IsInt64, wrap, add64}
use bank_core.Prelude.Dict.{Dict}
use bank_core.Prelude.Results.{ok, err}
use bank_core.Ledger.Domain.Defs.{
  Account, Posting, Balance, Hold, available, type_customer, hold_active, hold_captured, overflow,
  valid_currency,
}
use bank_core.Ledger.Domain.Rules.{
  validate_entry, validate_legs, check_leg, add_checked, apply_posting, can_place_hold,
  capture_hold,
}
use bank_core.Ledger.Domain.Entry.{
  LeavesInt64, IsDoubleEntry, validate_entry-IsDoubleEntry, validate_entry_complete,
}
use bank_core.Ledger.Domain.Holds.{
  IsRow, apply_posting-ok, can_place_hold_iff, capture_hold-ok, capture_hold_least,
}

abbrev account : String → String → Account
account id type = record {
  id = id;
  external_id = id;
  internal_code = "";
  type = type;
  currency = "KZT";
  status = "ACTIVE";
}

abbrev accounts : Dict Account
accounts = ("a1", account "a1" "customer") ∷ ("c1", account "c1" "internal") ∷ []

abbrev legs : List Posting
legs =
    record { account_id = "c1"; amount = negsuc 99; currency = "KZT" }
    ∷ record { account_id = "a1"; amount = pos 100; currency = "KZT" }
    ∷ []

legs-IsInt64 : All (λ p. IsInt64 p.amount) legs
legs-IsInt64 = (ground arith, (ground arith, tt))

legs-valid : validate_entry legs accounts ≡ ok tt
unfolding validate_entry validate_legs check_leg add_checked valid_currency wrap ◌+ℤ◌
    string_discrete
legs-valid = refl

legs-IsDoubleEntry : IsDoubleEntry accounts legs
legs-IsDoubleEntry = validate_entry-IsDoubleEntry legs accounts legs-IsInt64 legs-valid

validate_entry-IsDoubleEntry_example : IsDoubleEntry accounts legs
validate_entry-IsDoubleEntry_example =
    validate_entry-IsDoubleEntry legs accounts legs-IsInt64 legs-valid

validate_entry_complete_example :
    (validate_entry legs accounts ≡ ok tt)
    ⊎ ((validate_entry legs accounts ≡ err overflow) × LeavesInt64 [] legs)
validate_entry_complete_example =
    validate_entry_complete legs accounts legs-IsInt64 legs-IsDoubleEntry

abbrev balance : ℤ → ℤ → Balance
balance n held = record {
  account_id = "a1";
  currency = "KZT";
  balance = n;
  held = held;
  version = pos 1;
}

balance-IsRow : IsRow (balance (pos 100) (pos 40))
balance-IsRow = record {
  balance_range = ground arith;
  held_range = ground arith;
  held_nonneg = ground arith;
}

apply_posting-run :
    apply_posting (balance (pos 100) (pos 40)) "customer" (negsuc 49)
    ≡ ok (record (balance (pos 50) (pos 40)) { version = pos 2 })
unfolding apply_posting add_checked available wrap ◌+ℤ◌ ◌-ℤ◌ string_discrete
apply_posting-run = refl

apply_posting-ok_example :
    (pos 50 ≡ pos 100 +ℤ negsuc 49)
    × (pos 40 ≡ pos 40)
    × (pos 2 ≡ add64 (pos 1) (pos 1))
    × IsRow (record (balance (pos 50) (pos 40)) { version = pos 2 })
    × (type_customer ≡ type_customer → pos 40 ≤ℤ pos 50)
apply_posting-ok_example =
    apply_posting-ok (balance (pos 100) (pos 40)) type_customer (negsuc 49)
      (record (balance (pos 50) (pos 40)) { version = pos 2 }) balance-IsRow (ground arith)
      (λ _. ground arith) apply_posting-run

can_place_hold_iff_example :
    (can_place_hold (balance (pos 100) (pos 40)) type_customer (pos 60) ≡ ok tt)
    ↔ ((pos 0 <ℤ pos 60) × (pos 40 +ℤ pos 60 ≤ℤ pos 100))
can_place_hold_iff_example =
    can_place_hold_iff (balance (pos 100) (pos 40)) (pos 60) balance-IsRow (ground arith)

abbrev hold : String → Hold
hold status = record {
  id = "h1";
  account_id = "a1";
  amount = pos 40;
  currency = "KZT";
  reference_type = "transfer";
  reference_id = "t1";
  status = status;
  expires_at = 50;
}

capture_hold-run : capture_hold (hold hold_active) (negsuc 39) ≡ ok (hold hold_captured)
unfolding capture_hold wrap neg string_discrete
capture_hold-run = refl

capture_hold-ok_example :
    (hold_active ≡ hold_active)
    × (hold hold_captured ≡ record (hold hold_active) { status = hold_captured })
    × (pos (nat_abs (negsuc 39)) ≤ℤ pos 40)
capture_hold-ok_example =
    capture_hold-ok (hold hold_active) (hold hold_captured) (negsuc 39) (ground arith)
      (ground arith) capture_hold-run

capture_hold_least_example :
    capture_hold (hold hold_active) (negsuc (2 ^ 63 - 1)) ≡ ok (hold hold_captured)
capture_hold_least_example = capture_hold_least (hold hold_active) refl (ground arith)
