-- ===== src/Transfer/Backing.antt =====
-- Proofs about the handlers of services/transfer/internal/app/service.go that do not
-- complete a transfer.
use bank_core.Prelude.{
  ℕ, ◌≡◌, ◌≢◌, refl, arith, inl, inr, String, str_eq, Bool, true, Option, none, some, Bool-cases,
}
use bank_core.Prelude.Results.{Result, ok, err}
use bank_core.Apperr.{GoError, ambiguous, from_grpc, code_not_found}
use bank_core.Ledger.Store.{find_row}
use bank_core.Transfer.State.{
  State, Event, next, transitions, validating, held, posting, releasing, completed, failed,
  validated, validation_failed, hold_failed, posting_started, released,
}
use bank_core.Transfer.Tables.{SagaError, client, Transfer, AccountInfo}
use bank_core.Transfer.Clients.{Clients, World}
use bank_core.Transfer.Validate.{Verdict, parked, fails, errs, locks, lookup_verdict, verdict}
use bank_core.Transfer.Saga.{
  unless_raced, always, because, move, settle_verdict, after_fetch, after_hold, hold_with,
  after_release, release_with,
}
use bank_core.Transfer.Rounds.{with_id}
use bank_core.Transfer.Settlement.{Keeps, stay-Keeps, move-Keeps}

module _ {W : Type 0} (clients : Clients W) (Booked : String → W → Type 0) where
  -- A move to a state that is not COMPLETED.
  pub free-Keeps :
      (keep : Result SagaError (Unit {0}) → Result SagaError Bool) (t t' : Transfer) (event : Event)
      (to : State) (now : ℕ) (w : World W)
      → find_row (with_id t.id) w.db.transfers ≡ some t
      → t'.id ≡ t.id
      → next t.state event ≡ ok to
      → to ≢ completed
      → Keeps clients Booked t (move clients keep t t' event now w)
  free-Keeps keep t t' event to now w here same legal running =
      move-Keeps clients Booked keep t t' event to now w here same legal
        (λ done. absurd (running done))

  resting-Keeps :
      (t : Transfer) (r : Result SagaError Bool) (w : World W)
      → find_row (with_id t.id) w.db.transfers ≡ some t
      → t.state ≢ completed
      → Keeps clients Booked t (r, w)
  resting-Keeps t r w here running =
      stay-Keeps clients Booked t r w here (λ done. absurd (running done))

  settle_verdict-Keeps :
      (t : Transfer) (now : ℕ) (v : Verdict) (w : World W)
      → find_row (with_id t.id) w.db.transfers ≡ some t
      → t.state ≡ validating
      → Keeps clients Booked t (settle_verdict clients t now v w)
  unfolding settle_verdict next transitions
  settle_verdict-Keeps t now parked w here at =
      resting-Keeps t (ok true) w here (ground (arith, at))
  settle_verdict-Keeps t now (errs e) w here at =
      resting-Keeps t (err e) w here (ground (arith, at))
  settle_verdict-Keeps t now (fails reason) w here at =
      free-Keeps always t (because reason t) validation_failed failed now w here refl
        (ground (arith, at)) (ground arith)
  settle_verdict-Keeps t now (locks to_id counter currency micros pair) w here at =
      free-Keeps unless_raced t _ validated held now w here refl (ground (arith, at)) (ground arith)

  pub after_fetch-Keeps :
      (t : Transfer) (now : ℕ) (r : Result GoError (AccountInfo × AccountInfo)) (w : World W)
      → find_row (with_id t.id) w.db.transfers ≡ some t
      → t.state ≡ validating
      → Keeps clients Booked t (after_fetch clients t now r w)
  unfolding after_fetch
  after_fetch-Keeps t now (err e) w here at =
      settle_verdict-Keeps t now (lookup_verdict e) w here at
  after_fetch-Keeps t now (ok (from, to)) w here at =
      settle_verdict-Keeps t now (verdict t from to now w.db) w here at

  after_hold-Keeps :
      (t : Transfer) (now : ℕ) (r : Result GoError String) (w : World W)
      → find_row (with_id t.id) w.db.transfers ≡ some t
      → t.state ≡ held
      → Keeps clients Booked t (after_hold clients t now r w)
  unfolding after_hold next transitions
  after_hold-Keeps t now (ok h) w here at =
      free-Keeps unless_raced t _ posting_started posting now w here refl (ground (arith, at))
        (ground arith)
  after_hold-Keeps t now (err e) w here at = elim (Bool-cases (ambiguous e)) [
    | inl unknown ↦ rw unknown (resting-Keeps t (ok true) w here (ground (arith, at)))
    | inr known ↦ rw known (
        free-Keeps unless_raced t (because (from_grpc e) t) hold_failed releasing now w here refl
          (ground (arith, at)) (ground arith))
  ]

  after_release-Keeps :
      (t : Transfer) (now : ℕ) (r : Result GoError (Unit {0})) (w : World W)
      → find_row (with_id t.id) w.db.transfers ≡ some t
      → t.state ≡ releasing
      → Keeps clients Booked t (after_release clients t now r w)
  unfolding after_release next transitions
  after_release-Keeps t now (ok _) w here at =
      free-Keeps unless_raced t t released failed now w here refl (ground (arith, at))
        (ground arith)
  after_release-Keeps t now (err e) w here at = elim (Bool-cases (ambiguous e)) [
    | inl unknown ↦ rw unknown (resting-Keeps t (ok true) w here (ground (arith, at)))
    | inr known ↦ rw known (elim (Bool-cases (str_eq (from_grpc e) code_not_found)) [
      | inl gone ↦ rw gone (
          free-Keeps unless_raced t t released failed now w here refl (ground (arith, at))
            (ground arith))
      | inr other ↦ rw other (resting-Keeps t (err (client e)) w here (ground (arith, at)))
    ])
  ]

  pub hold_with-Keeps :
      (o : Option String) (t : Transfer) (now : ℕ) (w : World W)
      → find_row (with_id t.id) w.db.transfers ≡ some t
      → t.state ≡ held
      → Keeps clients Booked t (hold_with clients o t now w)
  unfolding hold_with next transitions
  hold_with-Keeps none t now w here at = after_hold-Keeps t now _ _ here at
  hold_with-Keeps (some h) t now w here at =
      free-Keeps unless_raced t t posting_started posting now w here refl (ground (arith, at))
        (ground arith)

  pub release_with-Keeps :
      (o : Option String) (t : Transfer) (now : ℕ) (w : World W)
      → find_row (with_id t.id) w.db.transfers ≡ some t
      → t.state ≡ releasing
      → Keeps clients Booked t (release_with clients o t now w)
  unfolding release_with next transitions
  release_with-Keeps none t now w here at =
      free-Keeps unless_raced t t released failed now w here refl (ground (arith, at))
        (ground arith)
  release_with-Keeps (some h) t now w here at = after_release-Keeps t now _ _ here at
