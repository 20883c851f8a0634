-- ===== src/Transfer/Outcome.antt =====
-- Proofs about `post`, one round of `Drive` and its end in services/transfer/internal/app/service.go,
-- against the ledger's PostTransaction: a completed transfer has its entry.
use mathlib.Core.Path.{subst}
use bank_core.Prelude.{
  ℕ, zero, suc, ◌≤◌, ◌≡◌, refl, arith, ◌⊎◌, inl, inr, String, map, true, false, List, none, some,
  Bool-cases, Option-cases,
}
use bank_core.Prelude.Results.{Result, ok, err, Result-cases}
use bank_core.Apperr.{GoError, ambiguous, from_grpc}
use bank_core.Ledger.Store.{find_row}
use bank_core.Ledger.Service.{Draws, post_transaction}
use bank_core.Ledger.Books.Once.{IsRecorded, post_transaction-IsRecorded}
use bank_core.Transfer.State.{
  State, next, transitions, is_terminal, created, validating, held, posting, releasing, completed,
  failed, start, posted, post_failed,
}
use bank_core.Transfer.Tables.{SagaError, not_found, Transfer}
use bank_core.Transfer.Store.{get_transfer}
use bank_core.Transfer.Postings.{LedgerPosting, to_spec, build_postings}
use bank_core.Transfer.Clients.{Clients, World}
use bank_core.Transfer.Saga.{unless_raced, because, validate, after_post, post, advance_from, drive}
use bank_core.Transfer.Rounds.{with_id, advance_from-Moves}
use bank_core.Transfer.Drive.{found-id, drive-Returns}
use bank_core.Transfer.Settlement.{IsBacked, Keeps, stay-Keeps, move-Keeps}
use bank_core.Transfer.Backing.{free-Keeps, after_fetch-Keeps, hold_with-Keeps, release_with-Keeps}
use bank_core.Transfer.Linked.{
  Delivery, answered, answer_lost, not_sent, LedgerWorld, reference_type, post_through, with_ledger,
}

delivery-cases :
    (d : Delivery)
    → (d ≡ answered) ⊎ ((e : GoError) × (d ≡ answer_lost e)) ⊎ ((e : GoError) × (d ≡ not_sent e))
delivery-cases answered = inl refl
delivery-cases (answer_lost e) = inr (inl (e, refl))
delivery-cases (not_sent e) = inr (inr (e, refl))

-- A post that is answered without an error has left an entry, also where it was there before.
post_through-IsRecorded :
    (draws : ℕ → Draws) (deliveries : ℕ → Delivery) (id hold : String) (legs : List LedgerPosting)
    (w : LedgerWorld)
    → (post_through draws deliveries id hold legs w).0 ≡ ok tt
    → IsRecorded reference_type id (post_through draws deliveries id hold legs w).1.books
unfolding post_through
post_through-IsRecorded draws deliveries id hold legs w done =
    let (r, books) =
      post_transaction (draws w.calls) reference_type id hold (map to_spec legs) w.books in
    elim (delivery-cases (deliveries w.calls)) [
      | inr (inl (e, lost)) ↦ absurd (ground (arith, done, lost))
      | inr (inr (e, lost)) ↦ absurd (ground (arith, done, lost))
      | inl came ↦ elim (Result-cases r) [
        | inr (e, refused) ↦ absurd (ground (arith, done, came, refused))
        | inl (view, made) ↦
            let entry : IsRecorded reference_type id books =
              post_transaction-IsRecorded (draws w.calls) reference_type id hold (map to_spec legs)
                w.books books view (ground (arith, made)) in
            rw (post_through, came) entry
      ]
    ]

module _ {W : Type 0} (clients : Clients W) (Booked : String → W → Type 0)
    (post_ok : (id hold : String) (legs : List LedgerPosting) (w : W)
      → (clients.post_transaction id hold legs w).0 ≡ ok tt
      → Booked id (clients.post_transaction id hold legs w).1) where
  after_post-Keeps :
      (t : Transfer) (now : ℕ) (r : Result GoError (Unit {0})) (w : World W)
      → find_row (with_id t.id) w.db.transfers ≡ some t
      → t.state ≡ posting
      → (r ≡ ok tt → Booked t.id w.outside)
      → Keeps clients Booked t (after_post clients t now r w)
  unfolding after_post next transitions
  after_post-Keeps t now (ok _) w here at there =
      move-Keeps clients Booked unless_raced t t posted completed now w here refl
        (ground (arith, at)) (λ _. there refl)
  after_post-Keeps t now (err e) w here at there = elim (Bool-cases (ambiguous e)) [
    | inl unknown ↦
        rw unknown
          (stay-Keeps clients Booked t (ok true) w here (λ done. absurd (ground (arith, at, done))))
    | inr known ↦ rw known (
        free-Keeps clients Booked unless_raced t (because (from_grpc e) t) post_failed releasing now
          w here refl (ground (arith, at)) (ground arith))
  ]

  post-Keeps :
      (t : Transfer) (now : ℕ) (w : World W)
      → find_row (with_id t.id) w.db.transfers ≡ some t
      → t.state ≡ posting
      → Keeps clients Booked t (post clients t now w)
  unfolding post
  post-Keeps t now w here at =
      let hold_id : String = elim t.hold_id [ some h ↦ h | none ↦ "" ] in
      after_post-Keeps t now _ _ here at (post_ok t.id hold_id (build_postings t) w.outside)

  -- One round of Drive.
  advance_from-Keeps :
      (s : State) (t : Transfer) (now : ℕ) (w : World W)
      → find_row (with_id t.id) w.db.transfers ≡ some t
      → t.state ≡ s
      → IsBacked clients Booked t w.outside
      → Keeps clients Booked t (advance_from clients s t now w)
  unfolding advance_from validate next transitions
  advance_from-Keeps posting t now w here at backed = post-Keeps t now w here at
  advance_from-Keeps completed t now w here at backed =
      stay-Keeps clients Booked t (ok true) w here backed
  advance_from-Keeps created t now w here at backed =
      free-Keeps clients Booked unless_raced t t start validating now w here refl
        (ground (arith, at)) (ground arith)
  advance_from-Keeps validating t now w here at backed =
      after_fetch-Keeps clients Booked t now _ _ here at
  advance_from-Keeps held t now w here at backed =
      hold_with-Keeps clients Booked t.hold_id t now w here at
  advance_from-Keeps releasing t now w here at backed =
      release_with-Keeps clients Booked t.hold_id t now w here at
  advance_from-Keeps failed t now w here at backed =
      stay-Keeps clients Booked t (ok true) w here backed

  drive-IsBacked :
      (rounds : ℕ) (id : String) (clock : ℕ → ℕ) (w w' : World W) (r : Result SagaError Transfer)
      (t t' : Transfer)
      → find_row (with_id id) w.db.transfers ≡ some t
      → IsBacked clients Booked t w.outside
      → drive clients rounds id clock w ≡ some (r, w')
      → find_row (with_id id) w'.db.transfers ≡ some t'
      → IsBacked clients Booked t' w'.outside
  unfolding drive get_transfer
  drive-IsBacked zero id clock w w' r t t' found backed h there = absurd (ground arith)
  drive-IsBacked (suc rounds) id clock w w' r t t' found backed h there =
      let same = found-id id t w.db.transfers found in
      let here : (find_row (with_id t.id) w.db.transfers ≡ some t) = ground (arith, found, same) in
      let out = advance_from clients t.state t (clock rounds) w in
      let keeps = advance_from-Keeps t.state t (clock rounds) w here refl backed in
      elim (Bool-cases (is_terminal t.state)) [
        | inl last ↦
            let ends : (w ≡ w') = ground (arith, found, last, h) in
            let row : (t ≡ t') = ground (arith, found, there, ends) in
            subst (λ u. IsBacked clients Booked t' u.outside) ends
              (subst (λ u. IsBacked clients Booked u w.outside) row backed)
        | inr more ↦ elim (Result-cases out.0) [
          | inr (e, stops) ↦
              let ends : (out.1 ≡ w') = ground (arith, found, more, stops, h) in
              subst (λ u. IsBacked clients Booked t' u.outside) ends
                (keeps t' (ground (arith, ends, there, same)))
          | inl (true, stops) ↦
              let ends : (out.1 ≡ w') = ground (arith, found, more, stops, h) in
              subst (λ u. IsBacked clients Booked t' u.outside) ends
                (keeps t' (ground (arith, ends, there, same)))
          | inl (false, goes) ↦
              let (_, on) = advance_from-Moves clients t.state t (clock rounds) w here refl in
              let (t₁, row, _) = on goes in
              drive-IsBacked rounds id clock out.1 w' r t₁ t' (ground (arith, row, same))
                (keeps t₁ row) (ground (arith, found, more, goes, h)) there
        ]
      ]

which : (s : State) → is_terminal s ≡ true → (s ≡ completed) ⊎ (s ≡ failed)
unfolding is_terminal
which s last = ground arith

ended :
    (t : Transfer) (P : Type 0)
    → (t.state ≡ completed → P)
    → (is_terminal t.state ≡ false) ⊎ (t.state ≡ failed) ⊎ ((t.state ≡ completed) × P)
ended t P backed = elim (Bool-cases (is_terminal t.state)) [
  | inr more ↦ inl more
  | inl last ↦ elim (which t.state last) [
    | inl done ↦ inr (inr (done, backed done))
    | inr lost ↦ inr (inl lost)
  ]
]

-- Drive runs a transfer that only this caller moves, with six rounds or more; it posts to the ledger's
-- PostTransaction, where any call and any answer may be lost, and the other clients do as they like, on
-- the ledger's tables as well. A transfer that is already completed has its entry. Then Drive comes to
-- its end, with an error, or with a transfer that is failed or still on its way, or with a completed
-- transfer for whose reference the ledger has an entry.
pub drive_completes :
    (draws : ℕ → Draws) (deliveries : ℕ → Delivery) (clients : Clients LedgerWorld) (rounds : ℕ)
    (id : String) (clock : ℕ → ℕ) (w : World LedgerWorld) (t : Transfer)
    → 6 ≤ rounds
    → find_row (with_id id) w.db.transfers ≡ some t
    → (t.state ≡ completed → IsRecorded reference_type t.id w.outside.books)
    → (r : Result SagaError Transfer) × (w' : World LedgerWorld) × (drive
          (with_ledger draws deliveries clients)
          rounds
          id
          clock
          w
        ≡ some (r, w'))
      × (((e : SagaError) × (r ≡ err e))
          ⊎ ((t' : Transfer) × (r ≡ ok t')
              × ((is_terminal t'.state ≡ false)
                  ⊎ (t'.state ≡ failed)
                  ⊎ ((t'.state ≡ completed) × IsRecorded reference_type t'.id w'.outside.books))))
unfolding get_transfer
drive_completes draws deliveries clients rounds id clock w t enough found backed =
    let linked = with_ledger draws deliveries clients in
    let booked : String → LedgerWorld → Type 0 = λ x v. IsRecorded reference_type x v.books in
    let (r, w', returned, _, answer) = drive-Returns linked rounds id clock w enough in
    (
      r,
      w',
      returned,
      elim answer [
        | inl stops ↦ inl stops
        | inr row ↦ elim (Option-cases (find_row (with_id id) w'.db.transfers)) [
          | inl missing ↦ inl (not_found, ground (arith, row, missing))
          | inr (t', there) ↦ inr (
            t',
            ground (arith, row, there),
            ended t' (booked t'.id w'.outside) (
                drive-IsBacked linked booked (post_through-IsRecorded draws deliveries) rounds id
                  clock w w' r t t' found backed returned there),
          )
        ]
      ],
    )
