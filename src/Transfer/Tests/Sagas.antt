-- ===== src/Transfer/Tests/Sagas.antt =====
-- Instances of the theorems on sagas: one ends with its entry in the books of the ledger.
use bank_core.Prelude.{◌≡◌, ◌⊎◌, refl, arith, String, false, [], ◌∷◌, none, some, string_discrete}
use bank_core.Prelude.Int.{pos}
use bank_core.Prelude.Results.{Result, ok, err}
use bank_core.Transfer.Tables.{SagaError, Transfer, AccountInfo}
use bank_core.Transfer.State.{created}
use bank_core.Transfer.Clients.{Clients, World}
use bank_core.Transfer.Saga.{drive}
use bank_core.Transfer.Drive.{Returns, drive-Returns}
use bank_core.Transfer.Outcome.{drive_completes}
use bank_core.Transfer.Linked.{
  Delivery, answered, answer_lost, LedgerWorld, reference_type, with_ledger,
}
use bank_core.Ledger.Books.Once.{IsRecorded}
use bank_core.Ledger.Service.{Draws}
use bank_core.Ledger.Tests.{held_books}
use bank_core.Apperr.{context_deadline}
use bank_core.Transfer.State.{is_terminal, failed, completed}
use bank_core.Prelude.{ℕ, zero, suc}
use bank_core.Prelude.{string_discrete, arith}

-- Each account is active, of the one customer and in tenge.
abbrev account : String → AccountInfo
account id = record { id = id; user_id = "u1"; number = "n"; currency = "KZT"; status = "ACTIVE" }

-- The ledger's tables are those of the ledger's tests, with a hold of this transfer.
abbrev keeper : Clients LedgerWorld
keeper = record {
  place_hold = λ ref amount currency id w. (ok "h1", w);
  release_hold = λ h w. (ok tt, w);
  post_transaction = λ id hold legs w. (ok tt, w);
  transaction_exists = λ id w. (ok false, w);
  get_account = λ id w. (ok (account id), w);
  resolve_by_number = λ n w. (ok (account n), w);
}

abbrev fresh : Transfer
fresh = record {
  id = "t2";
  type = "INTERNAL";
  state = created;
  customer_id = "u1";
  from_account_id = "alice";
  to_account_id = "bob";
  to_account_number = "";
  amount = pos 40;
  currency = "KZT";
  counter_amount = none;
  counter_currency = "";
  rate_micros = none;
  rate_pair = none;
  reason = none;
  hold_id = none;
  recovery_attempts = pos 0;
  created_at = 1;
  updated_at = 1;
}

abbrev before : World LedgerWorld
before = record {
  db = record {
    transfers = fresh ∷ [];
    events = [];
    keys = [];
    rates = [];
    limits =
        record { tier = "default"; currency = "KZT"; per_tx = pos 1000; daily = pos 5000 } ∷ [];
    outbox = [];
  };
  outside = record { calls = 0; books = held_books };
}

drive-Returns_example : Returns keeper "t2" before (drive keeper 6 "t2" (λ n. 10) before)
drive-Returns_example = drive-Returns keeper 6 "t2" (λ n. 10) before (omega arith)

-- The ids that the ledger draws. The answer of its first post arrives, the others are lost.
abbrev drawn_id : ℕ → String
drawn_id zero = "p2"
drawn_id (suc n) = "p3"

abbrev draws : ℕ → Draws
draws n = record { now = 9; entry_id = "e2"; posting_id = drawn_id }

abbrev deliveries : ℕ → Delivery
deliveries zero = answered
deliveries (suc n) = answer_lost context_deadline

drive_completes_example :
    (r : Result SagaError Transfer) × (w' : World LedgerWorld) × (drive
        (with_ledger draws deliveries keeper)
        6
        "t2"
        (λ n. 10)
        before
      ≡ some (r, w'))
    × (((e : SagaError) × (r ≡ err e))
        ⊎ ((t' : Transfer) × (r ≡ ok t')
            × ((is_terminal t'.state ≡ false)
                ⊎ (t'.state ≡ failed)
                ⊎ ((t'.state ≡ completed) × IsRecorded reference_type t'.id w'.outside.books))))
drive_completes_example =
    drive_completes draws deliveries keeper 6 "t2" (λ n. 10) before fresh (omega arith)
      (unfold string_discrete in refl) (λ done. absurd (ground (arith, done)))
