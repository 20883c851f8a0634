-- ===== src/Transfer/Drive.antt =====
-- Proofs about the loop of `Drive` in services/transfer/internal/app/service.go.
use bank_core.Prelude.{
  ℕ, zero, suc, ◌+◌, ◌≤◌, ◌≡◌, refl, arith, ◌⊎◌, inl, inr, String, str_eq_iff, true, false, List,
  [], ◌∷◌, Option, some, Bool-cases, Option-cases,
}
use bank_core.Prelude.Results.{Result, ok, err, Result-cases}
use bank_core.Ledger.Store.{find_row}
use bank_core.Transfer.State.{State, is_terminal, rank}
use bank_core.Transfer.Tables.{SagaError, not_found, Transfer}
use bank_core.Transfer.Store.{get_transfer}
use bank_core.Transfer.Clients.{Clients, World}
use bank_core.Transfer.Saga.{advance_from, drive}
use bank_core.Transfer.Rounds.{with_id, advance_from-Moves}

-- What a row found by its id has as id.
pub found-id :
    (id : String) (t : Transfer) (rows : List Transfer)
    → find_row (with_id id) rows ≡ some t
    → t.id ≡ id
found-id id t [] h = absurd (ground arith)
found-id id t (row ∷ rows) h = elim (Bool-cases (with_id id row)) [
  | inl hit ↦ ground (arith, (str_eq_iff row.id id).0)
  | inr miss ↦ found-id id t rows (ground arith)
]

rank_le : (s : State) → rank s ≤ 5
rank_le s = ground arith

rank-live : (s : State) → is_terminal s ≡ false → 1 ≤ rank s
unfolding is_terminal
rank-live s live = ground arith

module _ {W : Type 0} (clients : Clients W) where
  -- Drive came to its end: it leaves the idempotency keys, and answers with an error or with the
  -- transfer as the table then has it.
  abbrev pub Returns : String → World W → Option (Result SagaError Transfer × World W) → Type 0
  Returns id w out =
      (r : Result SagaError Transfer) × (w' : World W) × (out ≡ some (r, w'))
      × (w'.db.keys ≡ w.db.keys)
      × (((e : SagaError) × (r ≡ err e)) ⊎ (r ≡ get_transfer id w'.db))

  drive_loop :
      (rounds : ℕ) (id : String) (clock : ℕ → ℕ) (w : World W)
      → 1 ≤ rounds
      → ((t : Transfer) → find_row (with_id id) w.db.transfers ≡ some t → rank t.state + 1 ≤ rounds)
      → Returns id w (drive clients rounds id clock w)
  unfolding drive get_transfer
  drive_loop zero id clock w some_round enough = absurd (ground arith)
  drive_loop (suc rounds) id clock w some_round enough =
      elim (Option-cases (find_row (with_id id) w.db.transfers)) [
        | inl missing ↦ (err not_found, w, ground (arith, missing), refl, inl (not_found, refl))
        | inr (t, found) ↦ elim (Bool-cases (is_terminal t.state)) [
          | inl last ↦ (ok t, w, ground (arith, found, last), refl, inr (ground (arith, found)))
          | inr more ↦
              let same = found-id id t w.db.transfers found in
              let out = advance_from clients t.state t (clock rounds) w in
              let (keys, on) =
                advance_from-Moves clients t.state t (clock rounds) w (ground (arith, found, same))
                  refl in
              elim (Result-cases out.0) [
                | inr (e, stops) ↦
                    (err e, out.1, ground (arith, found, more, stops), keys, inl (e, refl))
                | inl (true, stops) ↦ (
                  get_transfer id out.1.db,
                  out.1,
                  ground (arith, found, more, stops),
                  keys,
                  inr refl,
                )
                | inl (false, goes) ↦
                    let (t', row, nearer) = on goes in
                    let (r, w', e, keys', answer) =
                      drive_loop rounds id clock out.1
                        (ground (arith, rank-live t.state more, enough t found))
                        (λ t'' f. ground (arith, enough t found, nearer, row, f, same)) in
                    (
                      r,
                      w',
                      ground (arith, found, more, goes, e),
                      ground (arith, keys, keys'),
                      answer,
                    )
              ]
        ]
      ]

  -- Drive, with six rounds or more and no other writer of the transfer, comes to its end: it leaves
  -- the idempotency keys as they are, and returns an error or the transfer as the table then has it.
  pub drive-Returns :
      (rounds : ℕ) (id : String) (clock : ℕ → ℕ) (w : World W)
      → 6 ≤ rounds
      → Returns id w (drive clients rounds id clock w)
  drive-Returns rounds id clock w enough =
      drive_loop rounds id clock w (ground (arith, enough))
        (λ t found. ground (arith, enough, rank_le t.state))
