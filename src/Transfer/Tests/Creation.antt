-- ===== src/Transfer/Tests/Creation.antt =====
-- Instances of the theorem on the idempotency key: an account service that does not answer.
use bank_core.Prelude.{
  ◌≡◌, refl, arith, String, str_eq, if◌then◌else◌, [], ◌∷◌, some, string_discrete, ne_of_test,
}
use bank_core.Prelude.Int.{ℤ, pos}
use bank_core.Prelude.Results.{ok, err}
use bank_core.Apperr.{
  context_deadline, grpc_status, unavailable, find_reason, code_of_status,
  code_idempotency_conflict, from_grpc,
}
use bank_core.Transfer.Tables.{SagaError, coded, Transfer, TransferDb, commit}
use bank_core.Transfer.State.{created, validating, next, transitions, is_terminal, state_eq}
use bank_core.Transfer.Request.{validate_spec}
use bank_core.Transfer.Store.{
  get_transfer, update_transfer_guarded, append_event, insert_transfer, try_insert_key, get_key,
}
use bank_core.Transfer.Clients.{Clients, World}
use bank_core.Transfer.Validate.{fetch_both, fetch_accounts, lookup_verdict}
use bank_core.Transfer.Saga.{
  write_transition, transition, unless_raced, move, settle_verdict, after_fetch, validate,
  advance_from, drive,
}
use bank_core.Transfer.Create.{
  CreateCmd, hash, new_transfer, new_key, check_cmd, create_tx, drive_created, create_transfer,
}
use bank_core.Transfer.Once.{create_transfer_once}

abbrev away : Clients (Unit {0})
away = record {
  place_hold = λ ref amount currency id w. (err context_deadline, w);
  release_hold = λ h w. (err context_deadline, w);
  post_transaction = λ id hold legs w. (err context_deadline, w);
  transaction_exists = λ id w. (err context_deadline, w);
  get_account = λ id w. (err (grpc_status unavailable []), w);
  resolve_by_number = λ n w. (err context_deadline, w);
}

-- Texts as they are in place of hashes, and one decimal form.
abbrev plain : String → String
plain s = s

abbrev one_form : ℤ → String
one_form n = "5"

abbrev cmd : CreateCmd
cmd = record {
  customer_id = "u1";
  idempotency_key = "k1";
  type = "INTERNAL";
  from_account_id = "alice";
  to_account_id = "savings";
  to_account_number = "";
  amount = pos 500;
  currency = "KZT";
}

-- The same key for another account.
abbrev other_cmd : CreateCmd
other_cmd = record cmd { to_account_id = "bob" }

abbrev nothing : TransferDb
nothing = record { transfers = []; events = []; keys = []; rates = []; limits = []; outbox = [] }

abbrev stored : TransferDb
stored = record nothing {
  transfers = new_transfer "t1" 10 cmd ∷ [];
  events = record { transfer_id = "t1"; from_state = created; to_state = created } ∷ [];
  keys = new_key plain one_form "t1" 10 cmd ∷ [];
}

abbrev parked_transfer : Transfer
parked_transfer = record (new_transfer "t1" 10 cmd) { state = validating; updated_at = 11 }

abbrev parked : TransferDb
parked = record stored {
  transfers = parked_transfer ∷ [];
  events =
      record { transfer_id = "t1"; from_state = created; to_state = validating } ∷ stored.events;
}

abbrev world : TransferDb → World (Unit {0})
world db = record { db = db; outside = tt }

cmd-valid : check_cmd cmd ≡ ok tt
unfolding check_cmd validate_spec string_discrete
cmd-valid = refl

other-valid : check_cmd other_cmd ≡ ok tt
unfolding check_cmd validate_spec string_discrete
other-valid = refl

cmd-unused : get_key "u1" "k1" nothing ≡ err SagaError.not_found
unfolding get_key
cmd-unused = refl

cmd-stored : create_tx plain one_form "t1" 10 cmd nothing ≡ ok ("", stored)
unfolding create_tx try_insert_key insert_transfer append_event string_discrete
cmd-stored = refl

cmd-parked :
    create_transfer plain one_form away 6 (some "t1") 10 (λ n. 11) cmd (world nothing)
    ≡ some (ok parked_transfer, world parked)
unfolding create_transfer check_cmd validate_spec commit create_tx try_insert_key insert_transfer
    append_event drive_created drive get_transfer is_terminal advance_from move transition next
    transitions write_transition update_transfer_guarded state_eq unless_raced validate
    fetch_accounts fetch_both after_fetch lookup_verdict from_grpc find_reason code_of_status
    settle_verdict string_discrete
cmd-parked = refl

create_transfer_once_example :
    create_transfer plain one_form away 6 (some "t2") 20 (λ n. 21) other_cmd (world parked) ≡ (
      if str_eq (hash plain one_form cmd) (hash plain one_form other_cmd)
      then drive away 6 "t1" (λ n. 21) (world parked)
      else some (err (coded code_idempotency_conflict), world parked))
create_transfer_once_example =
    create_transfer_once plain one_form away 6 6 "t1" "t2" "" 10 20 (λ n. 11) (λ n. 21) cmd
      other_cmd (world nothing) (world parked) (world parked) stored (ok parked_transfer)
      (omega arith) (omega arith) (ne_of_test "t1" "" (unfold string_discrete in refl)) cmd-unused
      cmd-valid cmd-stored cmd-parked refl refl refl other-valid
