-- ===== src/Transfer/Settlement.antt =====
-- Proofs about the handlers of services/transfer/internal/app/service.go and the ledger: a transfer that
-- is completed has an entry. `Booked` tells whether the world outside has an entry for a reference.
use mathlib.Core.Path.{subst}
use bank_core.Prelude.{ℕ, ◌≡◌, arith, String, Bool, some}
use bank_core.Prelude.Results.{Result, ok}
use bank_core.Ledger.Store.{find_row}
use bank_core.Transfer.State.{State, Event, next, completed}
use bank_core.Transfer.Tables.{SagaError, Transfer}
use bank_core.Transfer.Store.{rewritten}
use bank_core.Transfer.Clients.{Clients, World}
use bank_core.Transfer.Saga.{move}
use bank_core.Transfer.Rounds.{with_id, transition_fresh}

module _ {W : Type 0} (clients : Clients W) (Booked : String → W → Type 0) where
  -- A completed transfer has an entry.
  abbrev pub IsBacked : Transfer → W → Type 0
  IsBacked t w = t.state ≡ completed → Booked t.id w

  -- What a handler leaves: the row that is then found for the transfer is backed.
  abbrev pub Keeps : Transfer → Result SagaError Bool × World W → Type 0
  Keeps t out =
      (t' : Transfer)
      → find_row (with_id t.id) out.1.db.transfers ≡ some t'
      → IsBacked t' out.1.outside

  pub stay-Keeps :
      (t : Transfer) (r : Result SagaError Bool) (w : World W)
      → find_row (with_id t.id) w.db.transfers ≡ some t
      → IsBacked t w.outside
      → Keeps t (r, w)
  stay-Keeps t r w here backed t' there =
      let same : (t ≡ t') = ground (arith, here, there) in
      subst (λ u. IsBacked u w.outside) same backed

  pub move-Keeps :
      (keep : Result SagaError (Unit {0}) → Result SagaError Bool) (t t' : Transfer) (event : Event)
      (to : State) (now : ℕ) (w : World W)
      → find_row (with_id t.id) w.db.transfers ≡ some t
      → t'.id ≡ t.id
      → next t.state event ≡ ok to
      → IsBacked (rewritten (record t' { state = to }) now t) w.outside
      → Keeps t (move clients keep t t' event now w)
  unfolding move
  move-Keeps keep t t' event to now w here same legal backed t'' there =
      let (_, row, _) = transition_fresh t t' event to now w.db here same legal in
      let found : (rewritten (record t' { state = to }) now t ≡ t'') = ground (arith, row, there) in
      subst (λ u. IsBacked u w.outside) found backed
