-- ===== src/Transfer/Saga.antt =====
-- services/transfer/internal/app/service.go: the steps of the saga. Each handler gets the transfer as
-- its caller has loaded it, which may be stale by the time it writes.
use bank_core.Prelude.{
  ℕ, zero, suc, String, str_eq, Bool, true, false, if◌then◌else◌, Option, none, some,
}
use bank_core.Prelude.Results.{Result, ok, err}
use bank_core.Apperr.{GoError, from_grpc, ambiguous, code_internal, code_not_found}
use bank_core.Transfer.State.{
  State, Event, next, is_terminal, state_eq, completed, created, validating, held, posting,
  releasing, failed, start, validated, validation_failed, hold_failed, posting_started, posted,
  post_failed, released,
}
use bank_core.Transfer.Tables.{
  SagaError, state_raced, coded, client, Transfer, AccountInfo, StatusEvent, transfer_completed,
  transfer_failed, TransferDb, TransferTx, commit,
}
use bank_core.Transfer.Store.{get_transfer, update_transfer_guarded, append_event, insert_status}
use bank_core.Transfer.Postings.{source_ref, build_postings}
use bank_core.Transfer.Clients.{Clients, World}
use bank_core.Transfer.Validate.{
  fetch_accounts, lookup_verdict, verdict, Verdict, parked, fails, errs, locks,
}

-- The message of `insertStatusEvent`.
unfoldable pub status_event : Transfer → StatusEvent
status_event t =
    if state_eq t.state completed
    then transfer_completed t
    else transfer_failed t (elim t.reason [ some r ↦ r | none ↦ "" ])

-- The writes of `transition`, for the transfer as it is to be.
unfoldable pub write_transition : Transfer → State → ℕ → TransferTx (Unit {0})
write_transition t prev now db = elim (update_transfer_guarded t prev now db) [
  | err e ↦ err e
  | ok (_, db₁) ↦ elim (append_event t.id prev t.state db₁) [
    | err e ↦ err e
    | ok (_, db₂) ↦ if is_terminal t.state then insert_status (status_event t) db₂ else ok (tt, db₂)
  ]
]

-- `transition`: `t'` is the transfer after `mutate`.
unfoldable pub transition :
    Transfer → Transfer → Event → ℕ → TransferDb → Result SagaError (Unit {0}) × TransferDb
transition t t' event now db = elim (next t.state event) [
  | err _ ↦ (err (coded code_internal), db)
  | ok to ↦ commit (write_transition (record t' { state = to }) t.state now) db
]

-- `if terr != nil && !errors.Is(terr, ErrStateRaced)`
unfoldable pub unless_raced : Result SagaError (Unit {0}) → Result SagaError Bool
unless_raced (ok _) = ok false
unless_raced (err state_raced) = ok false
unless_raced (err e) = err e

-- An error as it is.
unfoldable pub always : Result SagaError (Unit {0}) → Result SagaError Bool
always (ok _) = ok false
always (err e) = err e

abbrev pub because : String → Transfer → Transfer
because reason t = record t { reason = some reason }

module _ {W : Type 0} (clients : Clients W) where
  -- A transition as the last act of a handler. The handlers' result tells whether the saga is parked.
  unfoldable pub move :
      (Result SagaError (Unit {0}) → Result SagaError Bool)
      → Transfer
      → Transfer
      → Event
      → ℕ
      → World W
      → Result SagaError Bool × World W
  move keep t t' event now w =
      let (r, db') = transition t t' event now w.db in (keep r, record w { db = db' })

  -- What `validate` does on a verdict.
  unfoldable pub settle_verdict : Transfer → ℕ → Verdict → World W → Result SagaError Bool × World W
  settle_verdict t now parked w = (ok true, w)
  settle_verdict t now (errs e) w = (err e, w)
  settle_verdict t now (fails reason) w = move always t (because reason t) validation_failed now w
  settle_verdict t now (locks to_id counter currency micros pair) w =
      move unless_raced t
        (record t {
          to_account_id = to_id;
          counter_amount = counter;
          counter_currency = currency;
          rate_micros = micros;
          rate_pair = pair;
        })
        validated now w

  -- `validate` on the answer about the two accounts.
  unfoldable pub after_fetch :
      Transfer
      → ℕ
      → Result GoError (AccountInfo × AccountInfo)
      → World W
      → Result SagaError Bool × World W
  after_fetch t now (err e) w = settle_verdict t now (lookup_verdict e) w
  after_fetch t now (ok (from, to)) w = settle_verdict t now (verdict t from to now w.db) w

  -- `validate`
  unfoldable pub validate : Transfer → ℕ → World W → Result SagaError Bool × World W
  validate t now w =
      let (r, out) = fetch_accounts clients t w.outside in
      after_fetch t now r (record w { outside = out })

  -- `holdAndAdvance` on the ledger's answer.
  unfoldable pub after_hold :
      Transfer → ℕ → Result GoError String → World W → Result SagaError Bool × World W
  after_hold t now (ok hold_id) w =
      move unless_raced t (record t { hold_id = some hold_id }) posting_started now w
  after_hold t now (err e) w =
      if ambiguous e
      then (ok true, w)
      else move unless_raced t (because (from_grpc e) t) hold_failed now w

  -- `holdAndAdvance` where the transfer has this hold.
  unfoldable pub hold_with :
      Option String → Transfer → ℕ → World W → Result SagaError Bool × World W
  hold_with (some _) t now w = move unless_raced t t posting_started now w
  hold_with none t now w =
      let (r, out) = clients.place_hold (source_ref t) t.amount t.currency t.id w.outside in
      after_hold t now r (record w { outside = out })

  -- `holdAndAdvance`
  abbrev pub hold_and_advance : Transfer → ℕ → World W → Result SagaError Bool × World W
  hold_and_advance t = hold_with t.hold_id t

  -- `post` on the ledger's answer.
  unfoldable pub after_post :
      Transfer → ℕ → Result GoError (Unit {0}) → World W → Result SagaError Bool × World W
  after_post t now (ok _) w = move unless_raced t t posted now w
  after_post t now (err e) w =
      if ambiguous e
      then (ok true, w)
      else move unless_raced t (because (from_grpc e) t) post_failed now w

  -- `post`
  unfoldable pub post : Transfer → ℕ → World W → Result SagaError Bool × World W
  post t now w =
      let hold_id : String = elim t.hold_id [ some h ↦ h | none ↦ "" ] in
      let (r, out) = clients.post_transaction t.id hold_id (build_postings t) w.outside in
      after_post t now r (record w { outside = out })

  -- What `release` does on the ledger's answer.
  unfoldable pub after_release :
      Transfer → ℕ → Result GoError (Unit {0}) → World W → Result SagaError Bool × World W
  after_release t now (ok _) w = move unless_raced t t released now w
  after_release t now (err e) w =
      if ambiguous e
      then (ok true, w)
      else if str_eq (from_grpc e) code_not_found
      then move unless_raced t t released now w
      else (err (client e), w)

  -- `release` where the transfer has this hold.
  unfoldable pub release_with :
      Option String → Transfer → ℕ → World W → Result SagaError Bool × World W
  release_with none t now w = move unless_raced t t released now w
  release_with (some h) t now w =
      let (r, out) = clients.release_hold h w.outside in
      after_release t now r (record w { outside = out })

  -- `release`
  abbrev pub release : Transfer → ℕ → World W → Result SagaError Bool × World W
  release t = release_with t.hold_id t

  -- One round of `Drive` after the load, by the state. In `StateCreated` there is no call, and a lost
  -- race loads again.
  unfoldable pub advance_from : State → Transfer → ℕ → World W → Result SagaError Bool × World W
  advance_from created t now w = move unless_raced t t start now w
  advance_from validating t now w = validate t now w
  advance_from held t now w = hold_and_advance t now w
  advance_from posting t now w = post t now w
  advance_from releasing t now w = release t now w
  advance_from completed t now w = (ok true, w)
  advance_from failed t now w = (ok true, w)

  abbrev pub advance : Transfer → ℕ → World W → Result SagaError Bool × World W
  advance t = advance_from t.state t

  -- `Drive`, for at most so many rounds: none where they ran out. The times are those of the rounds.
  unfoldable pub drive :
      ℕ → String → (ℕ → ℕ) → World W → Option (Result SagaError Transfer × World W)
  drive zero id clock w = none
  drive (suc rounds) id clock w = elim (get_transfer id w.db) [
    | err e ↦ some (err e, w)
    | ok t ↦
        if is_terminal t.state
        then some (ok t, w)
        else let (r, w') = advance t (clock rounds) w in
          elim r [
            | err e ↦ some (err e, w')
            | ok true ↦ some (get_transfer id w'.db, w')
            | ok false ↦ drive rounds id clock w'
          ]
  ]
