-- ===== src/Ledger/Tests/Payload.antt =====
-- An instance of the theorem on the payload of a replay.
use bank_core.Prelude.{String, ◌≡◌, refl, true, List, [], ◌∷◌, string_discrete}
use bank_core.Prelude.Int.{ℤ, pos, negsuc, ◌+ℤ◌, ◌-ℤ◌}
use bank_core.Ledger.Domain.{Posting}
use bank_core.Ledger.Store.{PostingView, EntryView}
use bank_core.Ledger.Service.{Leg, same_payload, count_up, count_down}
use bank_core.Ledger.Books.Payload.{times_viewed, times_requested, same_payload_counts}

abbrev viewed : String → String → ℤ → PostingView
viewed id account amount = record {
  id = id;
  entry_id = "e1";
  account_id = account;
  external_account_id = "";
  amount = amount;
  currency = "KZT";
  occurred_at = 7;
}

abbrev entry : EntryView
entry = record {
  id = "e1";
  reference_type = "transfer";
  reference_id = "t1";
  occurred_at = 7;
  postings = viewed "p0" "c1" (negsuc 9) ∷ viewed "p1" "b1" (pos 10) ∷ [];
}

-- The same legs in the other order.
abbrev requested : List Posting
requested =
    record { account_id = "b1"; amount = pos 10; currency = "KZT" }
    ∷ record { account_id = "c1"; amount = negsuc 9; currency = "KZT" }
    ∷ []

abbrev debit : Leg
debit = record { account = "c1"; amount = negsuc 9; currency = "KZT" }

entry-same_payload : same_payload entry requested ≡ true
unfolding same_payload count_up count_down string_discrete ◌+ℤ◌ ◌-ℤ◌
entry-same_payload = refl

same_payload_counts_example : times_viewed debit entry.postings ≡ times_requested debit requested
same_payload_counts_example = same_payload_counts entry requested debit entry-same_payload
