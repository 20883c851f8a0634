-- ===== src/Transfer/Rounds.antt =====
-- Proofs about services/transfer/internal/app/service.go: what a transition and one round of `Drive`
-- do to the row of a transfer that no other instance writes meanwhile.
use bank_core.Prelude.{
  ℕ, ◌+◌, ◌≤◌, ◌≡◌, refl, arith, inl, inr, String, str_eq, str_eq_iff, Bool, true, false, ◌&&◌,
  List, [], ◌∷◌, Option, none, some, Bool-cases,
}
use bank_core.Prelude.Results.{Result, ok, err}
use bank_core.Apperr.{GoError, ambiguous, from_grpc, code_not_found}
use bank_core.Ledger.Store.{find_row, update_rows, is_some}
use bank_core.Transfer.State.{
  State, Event, next, transitions, state_eq, state_eq_iff, rank, created, validating, held, posting,
  releasing, completed, failed, start, validated, validation_failed, hold_failed, posting_started,
  posted, post_failed, released,
}
use bank_core.Transfer.Tables.{SagaError, client, Transfer, AccountInfo, TransferDb, commit}
use bank_core.Transfer.Store.{update_transfer_guarded, append_event, insert_status, rewritten}
use bank_core.Transfer.Clients.{Clients, World}
use bank_core.Transfer.Validate.{Verdict, parked, fails, errs, locks, lookup_verdict, verdict}
use bank_core.Transfer.Saga.{
  transition, write_transition, unless_raced, always, because, move, settle_verdict, after_fetch,
  validate, after_hold, hold_with, after_post, post, after_release, release_with, advance_from,
}

abbrev pub with_id : String → Transfer → Bool
with_id id t = str_eq t.id id

abbrev guarded : String → State → Transfer → Bool
guarded id s t = str_eq t.id id && state_eq t.state s

-- The guarded update finds the row that GetTransfer found, and rewrites it.
find_row-update_rows :
    (t t' : Transfer) (now : ℕ) (rows : List Transfer)
    → find_row (with_id t.id) rows ≡ some t
    → (find_row (with_id t.id) (update_rows (guarded t.id t.state) (rewritten t' now) rows)
        ≡ some (rewritten t' now t))
      × (is_some (find_row (guarded t.id t.state) rows) ≡ true)
find_row-update_rows t t' now [] h = absurd (ground arith)
find_row-update_rows t t' now (row ∷ rows) h = elim (Bool-cases (with_id t.id row)) [
  | inl hit ↦
      let same : (row ≡ t) = ground arith in
      let self = (state_eq_iff t.state t.state).1 refl in
      simp same (ground (arith, self, (str_eq_iff t.id t.id).1 refl))
  | inr miss ↦
      let ih = find_row-update_rows t t' now rows (ground arith) in ground (arith, ih, miss)
]

-- What a transition does to the row that was read: legal ones are committed.
pub transition_fresh :
    (t t' : Transfer) (event : Event) (to : State) (now : ℕ) (db : TransferDb)
    → find_row (with_id t.id) db.transfers ≡ some t
    → t'.id ≡ t.id
    → next t.state event ≡ ok to
    → ((transition t t' event now db).0 ≡ ok tt)
      × (find_row (with_id t.id) (transition t t' event now db).1.transfers
          ≡ some (rewritten (record t' { state = to }) now t))
      × ((transition t t' event now db).1.keys ≡ db.keys)
unfolding transition write_transition update_transfer_guarded append_event insert_status commit
transition_fresh t t' event to now db here same legal =
    let (there, found) = find_row-update_rows t (record t' { state = to }) now db.transfers here in
    ground (arith, legal, same, there, found)

module _ {W : Type 0} (clients : Clients W) where
  -- What a handler leaves of a transfer and a world: the keys stay, and where the saga is to go on, the
  -- row has a state nearer to the end.
  abbrev pub Moves : Transfer → World W → Result SagaError Bool × World W → Type 0
  Moves t w out =
      (out.1.db.keys ≡ w.db.keys)
      × (out.0 ≡ ok false
          → (t' : Transfer) × (find_row (with_id t.id) out.1.db.transfers ≡ some t')
            × (rank t'.state + 1 ≤ rank t.state))

  parked-Moves : (t : Transfer) (w w' : World W) → w'.db ≡ w.db → Moves t w (ok true, w')
  parked-Moves t w w' same = (ground (arith, same), λ e. absurd (ground arith))

  err-Moves : (t : Transfer) (w w' : World W) (e : SagaError) → w'.db ≡ w.db → Moves t w (err e, w')
  err-Moves t w w' e same = (ground (arith, same), λ h. absurd (ground arith))

  move-Moves :
      (keep : Result SagaError (Unit {0}) → Result SagaError Bool) (t t' : Transfer) (event : Event)
      (to : State) (now : ℕ) (w w' : World W)
      → find_row (with_id t.id) w.db.transfers ≡ some t
      → w'.db ≡ w.db
      → t'.id ≡ t.id
      → next t.state event ≡ ok to
      → rank to + 1 ≤ rank t.state
      → Moves t w (move clients keep t t' event now w')
  unfolding move
  move-Moves keep t t' event to now w w' here unchanged same legal nearer =
      let (done, row, keys) =
        transition_fresh t t' event to now w'.db (ground (arith, here, unchanged)) same legal in
      (
        ground (arith, keys, unchanged),
        λ e. (rewritten (record t' { state = to }) now t, row, nearer),
      )

  settle_verdict-Moves :
      (t : Transfer) (now : ℕ) (v : Verdict) (w w' : World W)
      → find_row (with_id t.id) w.db.transfers ≡ some t
      → w'.db ≡ w.db
      → t.state ≡ validating
      → Moves t w (settle_verdict clients t now v w')
  unfolding settle_verdict next transitions
  settle_verdict-Moves t now parked w w' here same at = parked-Moves t w w' same
  settle_verdict-Moves t now (errs e) w w' here same at = err-Moves t w w' e same
  settle_verdict-Moves t now (fails reason) w w' here same at =
      move-Moves always t (because reason t) validation_failed failed now w w' here same refl
        (ground (arith, at)) (ground (arith, at))
  settle_verdict-Moves t now (locks to_id counter currency micros pair) w w' here same at =
      move-Moves unless_raced t _ validated held now w w' here same refl (ground (arith, at))
        (ground (arith, at))

  after_fetch-Moves :
      (t : Transfer) (now : ℕ) (r : Result GoError (AccountInfo × AccountInfo)) (w w' : World W)
      → find_row (with_id t.id) w.db.transfers ≡ some t
      → w'.db ≡ w.db
      → t.state ≡ validating
      → Moves t w (after_fetch clients t now r w')
  unfolding after_fetch
  after_fetch-Moves t now (err e) w w' here same at =
      settle_verdict-Moves t now (lookup_verdict e) w w' here same at
  after_fetch-Moves t now (ok (from, to)) w w' here same at =
      settle_verdict-Moves t now (verdict t from to now w'.db) w w' here same at

  after_hold-Moves :
      (t : Transfer) (now : ℕ) (r : Result GoError String) (w w' : World W)
      → find_row (with_id t.id) w.db.transfers ≡ some t
      → w'.db ≡ w.db
      → t.state ≡ held
      → Moves t w (after_hold clients t now r w')
  unfolding after_hold next transitions
  after_hold-Moves t now (ok h) w w' here same at =
      move-Moves unless_raced t _ posting_started posting now w w' here same refl
        (ground (arith, at)) (ground (arith, at))
  after_hold-Moves t now (err e) w w' here same at = elim (Bool-cases (ambiguous e)) [
    | inl unknown ↦ rw unknown (parked-Moves t w w' same)
    | inr known ↦ rw known (
        move-Moves unless_raced t (because (from_grpc e) t) hold_failed releasing now w w' here same
          refl (ground (arith, at)) (ground (arith, at)))
  ]

  hold_with-Moves :
      (o : Option String) (t : Transfer) (now : ℕ) (w : World W)
      → find_row (with_id t.id) w.db.transfers ≡ some t
      → t.state ≡ held
      → Moves t w (hold_with clients o t now w)
  unfolding hold_with next transitions
  hold_with-Moves none t now w here at = after_hold-Moves t now _ w _ here refl at
  hold_with-Moves (some h) t now w here at =
      move-Moves unless_raced t t posting_started posting now w w here refl refl
        (ground (arith, at)) (ground (arith, at))

  after_post-Moves :
      (t : Transfer) (now : ℕ) (r : Result GoError (Unit {0})) (w w' : World W)
      → find_row (with_id t.id) w.db.transfers ≡ some t
      → w'.db ≡ w.db
      → t.state ≡ posting
      → Moves t w (after_post clients t now r w')
  unfolding after_post next transitions
  after_post-Moves t now (ok _) w w' here same at =
      move-Moves unless_raced t t posted completed now w w' here same refl (ground (arith, at))
        (ground (arith, at))
  after_post-Moves t now (err e) w w' here same at = elim (Bool-cases (ambiguous e)) [
    | inl unknown ↦ rw unknown (parked-Moves t w w' same)
    | inr known ↦ rw known (
        move-Moves unless_raced t (because (from_grpc e) t) post_failed releasing now w w' here same
          refl (ground (arith, at)) (ground (arith, at)))
  ]

  after_release-Moves :
      (t : Transfer) (now : ℕ) (r : Result GoError (Unit {0})) (w w' : World W)
      → find_row (with_id t.id) w.db.transfers ≡ some t
      → w'.db ≡ w.db
      → t.state ≡ releasing
      → Moves t w (after_release clients t now r w')
  unfolding after_release next transitions
  after_release-Moves t now (ok _) w w' here same at =
      move-Moves unless_raced t t released failed now w w' here same refl (ground (arith, at))
        (ground (arith, at))
  after_release-Moves t now (err e) w w' here same at = elim (Bool-cases (ambiguous e)) [
    | inl unknown ↦ rw unknown (parked-Moves t w w' same)
    | inr known ↦ rw known (elim (Bool-cases (str_eq (from_grpc e) code_not_found)) [
      | inl gone ↦ rw gone (
          move-Moves unless_raced t t released failed now w w' here same refl (ground (arith, at))
            (ground (arith, at)))
      | inr other ↦ rw other (err-Moves t w w' (client e) same)
    ])
  ]

  release_with-Moves :
      (o : Option String) (t : Transfer) (now : ℕ) (w : World W)
      → find_row (with_id t.id) w.db.transfers ≡ some t
      → t.state ≡ releasing
      → Moves t w (release_with clients o t now w)
  unfolding release_with next transitions
  release_with-Moves none t now w here at =
      move-Moves unless_raced t t released failed now w w here refl refl (ground (arith, at))
        (ground (arith, at))
  release_with-Moves (some h) t now w here at = after_release-Moves t now _ w _ here refl at

  pub advance_from-Moves :
      (s : State) (t : Transfer) (now : ℕ) (w : World W)
      → find_row (with_id t.id) w.db.transfers ≡ some t
      → t.state ≡ s
      → Moves t w (advance_from clients s t now w)
  unfolding advance_from validate post next transitions
  advance_from-Moves created t now w here at =
      move-Moves unless_raced t t start validating now w w here refl refl (ground (arith, at))
        (ground (arith, at))
  advance_from-Moves validating t now w here at = after_fetch-Moves t now _ w _ here refl at
  advance_from-Moves held t now w here at = hold_with-Moves t.hold_id t now w here at
  advance_from-Moves posting t now w here at = after_post-Moves t now _ w _ here refl at
  advance_from-Moves releasing t now w here at = release_with-Moves t.hold_id t now w here at
  advance_from-Moves completed t now w here at = parked-Moves t w w refl
  advance_from-Moves failed t now w here at = parked-Moves t w w refl
