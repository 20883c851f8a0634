-- ===== src/Account/Tests.antt =====
-- Instances of the theorems on accounts.
use bank_core.Prelude.{
  ℕ, ◌≡◌, refl, arith, inl, inr, true, false, String, List, [], ◌∷◌, some, string_discrete,
  ne_of_test,
}
use bank_core.Prelude.Int.{pos}
use bank_core.Prelude.Results.{ok}
use bank_core.Money.{valid_currency}
use bank_core.Account.Numbers.{
  generate_number, valid_number, mod97, mod97_from, two_digits, valid_number-generate_number,
}
use bank_core.Account.Tables.{
  AccountRow, Projected, AccountView, AccountDb, account_opened, commit, upsert_customer,
  create_row, balance_of,
}
use bank_core.Account.Service.{
  Caller, LedgerClient, open_tx, open_mirrored, open_numbered, open_account,
}
use bank_core.Account.Projection.{deliver_all}
use bank_core.Account.Newest.{In}
use bank_core.Account.Convergence.{projection_converges}
use bank_core.Account.Opening.{open_account_mirrored}

-- The bytes of "0000000000042".
abbrev forty_two : List ℕ
forty_two = 48 ∷ 48 ∷ 48 ∷ 48 ∷ 48 ∷ 48 ∷ 48 ∷ 48 ∷ 48 ∷ 48 ∷ 48 ∷ 52 ∷ 50 ∷ []

valid_number-generate_number_example :
    (number : List ℕ) × (generate_number forty_two ≡ ok number) × (valid_number number ≡ true)
valid_number-generate_number_example = valid_number-generate_number forty_two refl refl

-- A ledger that keeps the ids of its accounts.
abbrev mirror : LedgerClient (List String)
mirror = record {
  create_account = λ id currency w. (ok tt, id ∷ w);
  get_balances = λ ids w. (ok [], w);
}

abbrev empty : AccountDb
empty = record { customers = []; accounts = []; balances = []; outbox = [] }

abbrev number : List ℕ
number =
    75 ∷ 90 ∷ 52 ∷ 54 ∷ 49 ∷ 50 ∷ 53 ∷ 48 ∷ 48 ∷ 48 ∷ 48 ∷ 48 ∷ 48 ∷ 48 ∷ 48 ∷ 48 ∷ 48 ∷ 48 ∷ 52
    ∷ 50 ∷ []

abbrev account : AccountRow
account = record {
  id = "a1";
  customer_id = "c1";
  number = number;
  currency = "KZT";
  status = "ACTIVE";
  opened_at = 7;
}

abbrev shown : AccountView
shown = record {
  id = "a1";
  customer_id = "c1";
  user_id = "u1";
  number = number;
  currency = "KZT";
  status = "ACTIVE";
  opened_at = 7;
}

abbrev opened : AccountDb
opened = record {
  customers = record { id = "c1"; user_id = "u1"; tier = "default" } ∷ [];
  accounts = account ∷ [];
  balances = [];
  outbox = account_opened shown ∷ [];
}

abbrev alice : Caller
alice = record { customer_id = "u1"; is_staff = false }

open_account-opened :
    open_account mirror alice "KZT" (some forty_two) (some "a1") "c1" 7 empty []
    ≡ (ok shown, (opened, "a1" ∷ []))
unfolding open_account open_numbered open_mirrored open_tx commit upsert_customer create_row
    valid_currency generate_number mod97 mod97_from two_digits string_discrete
open_account-opened = refl

open_account_mirrored_example :
    (mirror.create_account "a1" "KZT" [] ≡ (ok tt, "a1" ∷ [])) × (valid_number number ≡ true)
open_account_mirrored_example =
    open_account_mirrored mirror alice "KZT" (some forty_two) (some "a1") "c1" 7 empty opened []
      ("a1" ∷ []) shown open_account-opened

abbrev first_balance : Projected
first_balance = record { account_id = "a1"; balance = pos 100; version = pos 1; as_of = 10 }

abbrev second_balance : Projected
second_balance = record { account_id = "a1"; balance = pos 70; version = pos 2; as_of = 20 }

abbrev in_order : List Projected
in_order = first_balance ∷ second_balance ∷ []

abbrev reordered : List Projected
reordered = second_balance ∷ first_balance ∷ second_balance ∷ []

there : (b : Projected) → In b in_order → In b reordered
there b (inl same) = inr (inl same)
there b (inr (inl same)) = inl same
there b (inr (inr none_left)) = elim none_left [ ]

back : (b : Projected) → In b reordered → In b in_order
back b (inl same) = inr (inl same)
back b (inr (inl same)) = inl same
back b (inr (inr (inl same))) = inr (inl same)
back b (inr (inr (inr none_left))) = elim none_left [ ]

one_per_version :
    (b c : Projected)
    → In b in_order
    → In c in_order
    → b.account_id ≡ c.account_id
    → b.version ≡ c.version
    → b ≡ c
one_per_version b c i j account version = ground arith

projection_converges_example :
    balance_of "a1" (deliver_all in_order opened) ≡ balance_of "a1" (deliver_all reordered opened)
projection_converges_example =
    projection_converges in_order reordered "a1" opened
      (ne_of_test "a1" "" (unfold string_discrete in refl)) (unfold string_discrete in refl) there
      back one_per_version
