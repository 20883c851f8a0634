-- ===== src/Transfer/Tests.antt =====
-- Instances of the theorems on transfers.
mod Sagas
mod Creation
mod Stuck
use bank_core.Prelude.{
  none, ◌≡◌, ◌↔◌, ◌+◌, ◌≤◌, refl, arith, List, [], ◌∷◌, some, map, length, string_discrete,
}
use bank_core.Prelude.Int.{pos, ◌+ℤ◌, ◌≤ℤ◌}
use bank_core.Prelude.Results.{ok}
use bank_core.Ledger.Domain.{Account}
use bank_core.Ledger.Store.{Db, get_account_by_ref, account_by_external}
use bank_core.Ledger.Books.{IsRequest}
use bank_core.Transfer.State.{
  Event, posting, created, completed, start, validated, posting_started, posted, next, transitions,
  run, rank, run_completed, run_bounded,
}
use bank_core.Transfer.Request.{check_limits, check_limits_iff}
use bank_core.Transfer.Tables.{Transfer}
use bank_core.Transfer.Postings.{
  HasAmounts, build_postings, to_spec, sum_specs, ledger_source, source_ref, to_proto_ref,
  ref_from_proto, build_postings_balanced, build_postings-IsRequest,
}

abbrev happy : List Event
happy = start ∷ validated ∷ posting_started ∷ posted ∷ []

happy-ok : run created happy ≡ ok completed
unfolding next transitions
happy-ok = refl

run_completed_example : happy ≡ start ∷ validated ∷ posting_started ∷ posted ∷ []
run_completed_example = run_completed happy happy-ok

run_bounded_example : length happy + rank completed ≤ rank created
run_bounded_example = run_bounded created happy happy-ok

check_limits_iff_example :
    (check_limits (pos 10) (pos 50) (pos 20) (pos 30) ≡ ok tt)
    ↔ ((pos 10 ≤ℤ pos 50) × (pos 20 +ℤ pos 10 ≤ℤ pos 30))
check_limits_iff_example =
    check_limits_iff (pos 10) (pos 50) (pos 20) (pos 30) (ground arith) (ground arith)
      (ground arith) (ground arith)

-- A conversion of 450 KZT to 1 USD.
abbrev conversion : Transfer
conversion = record {
  id = "t1";
  type = "INTERNAL";
  state = posting;
  customer_id = "u1";
  from_account_id = "alice";
  to_account_id = "alice_usd";
  to_account_number = "";
  amount = pos 45000;
  currency = "KZT";
  counter_amount = some (pos 100);
  counter_currency = "USD";
  rate_micros = some (pos 450000000);
  rate_pair = some "USDKZT";
  reason = none;
  hold_id = some "h1";
  recovery_attempts = pos 0;
  created_at = 1;
  updated_at = 2;
}

conversion-HasAmounts : HasAmounts conversion
conversion-HasAmounts = record {
  amount_range = ground arith;
  amount_pos = ground arith;
  counter_range = λ n same. (ground arith, ground arith);
}

build_postings_balanced_example : sum_specs "USD" (map to_spec (build_postings conversion)) ≡ pos 0
build_postings_balanced_example = build_postings_balanced conversion "USD" conversion-HasAmounts

abbrev alice : Account
alice = record {
  id = "a1";
  external_id = "alice";
  internal_code = "";
  type = "customer";
  currency = "KZT";
  status = "ACTIVE";
}

abbrev one_hold : Db
one_hold = record {
  accounts = alice ∷ [];
  balances = [];
  entries = [];
  entry_refs = [];
  postings = [];
  holds =
      record {
        id = "h1";
        account_id = "a1";
        amount = pos 45000;
        currency = "KZT";
        reference_type = "transfer";
        reference_id = "t1";
        status = "active";
        expires_at = 50;
      }
      ∷ [];
  outbox = [];
}

alice-found : get_account_by_ref (ledger_source conversion) one_hold ≡ ok alice
unfolding get_account_by_ref account_by_external source_ref to_proto_ref ref_from_proto
    string_discrete
alice-found = refl

build_postings-IsRequest_example : IsRequest "h1" (map to_spec (build_postings conversion)) one_hold
build_postings-IsRequest_example =
    build_postings-IsRequest conversion "h1" one_hold alice conversion-HasAmounts alice-found
      (λ h named. ground arith)
