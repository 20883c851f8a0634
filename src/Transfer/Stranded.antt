-- ===== src/Transfer/Stranded.antt =====
-- Proofs about services/transfer/internal/app/recovery.go: a transfer over the retry budget whose hold
-- the ledger does not release.
use bank_core.Prelude.{
  ℕ, suc, ◌≡◌, refl, arith, String, str_eq, true, false, Option, none, some, List, [], ◌∷◌, map,
  take, All, Bool-cases, inl, inr,
}
use bank_core.Prelude.Int.{pos, ◌+ℤ◌, ltb_ℤ}
use bank_core.Prelude.Results.{ok, err}
use bank_core.Prelude.Sort.{elem}
use bank_core.Apperr.{GoError, ambiguous, from_grpc, code_not_found}
use bank_core.Ledger.Store.{find_row, update_rows}
use bank_core.Transfer.State.{
  posting, releasing, recovery_exhausted, next, transitions, is_terminal, state_eq,
}
use bank_core.Transfer.Tables.{SagaError, client, Transfer}
use bank_core.Transfer.Store.{get_transfer, rewritten}
use bank_core.Transfer.Clients.{Clients, World}
use bank_core.Transfer.Saga.{
  transition, unless_raced, because, move, after_release, release_with, advance_from, drive,
}
use bank_core.Transfer.Recovery.{
  Outcome, release_pending, drive_failed, max_attempts, claim_stuck, stuck, has_room, all_of,
  settle, retry, disambiguate, recover_one,
}
use bank_core.Transfer.Rounds.{with_id, transition_fresh}
use bank_core.Transfer.Drive.{found-id}

module _ {W : Type 0} (clients : Clients W) where
  -- The ledger refuses to release a hold, for good.
  abbrev pub Refuses : String → Type 0
  Refuses h =
      (w : W)
      → (e : GoError) × ((clients.release_hold h w).0 ≡ err e)
        × (ambiguous e ≡ false)
        × (str_eq (from_grpc e) code_not_found ≡ false)

  -- Drive of a transfer in RELEASING then stops with an error and writes nothing.
  drive-refused :
      (rounds : ℕ) (id h : String) (clock : ℕ → ℕ) (w : World W) (t : Transfer)
      → Refuses h
      → find_row (with_id id) w.db.transfers ≡ some t
      → t.state ≡ releasing
      → t.hold_id ≡ some h
      → (e : SagaError) × (w' : World W) × (drive clients (suc rounds) id clock w
          ≡ some (err e, w'))
        × (w'.db ≡ w.db)
  unfolding drive get_transfer is_terminal advance_from release_with after_release
  drive-refused rounds id h clock w t refuses found at has =
      let (e, refused, known, other) = refuses w.outside in
      (
        client e,
        record w { outside = (clients.release_hold h w.outside).1 },
        ground (arith, found, at, has, refused, known, other),
        refl,
      )

  -- The transfer is in RELEASING, with the hold.
  abbrev pub InReleasing : String → String → World W → Type 0
  InReleasing id h w =
      (t : Transfer) × (find_row (with_id id) w.db.transfers ≡ some t)
      × (t.state ≡ releasing)
      × (t.hold_id ≡ some h)

  -- A run of the recovery for one transfer, at a time, after anything that others do: it claims the
  -- stuck transfers, and recovers this one. Where the claim fails, it does not.
  pub record Run : Type 0 where
    pub now : ℕ
    pub others : World W → World W

  abbrev pub claim_then : ℕ → ℕ → ℕ → World W → World W
  claim_then stale_after limit now w = elim (claim_stuck stale_after limit now w.db) [
    | err _ ↦ w
    | ok (_, db') ↦ record w { db = db' }
  ]

  -- One run after another, with the outcomes.
  pub recoveries : ℕ → ℕ → String → (ℕ → ℕ) → List Run → World W → Option (List Outcome × World W)
  recoveries rounds stale_after id clock [] w = some ([], w)
  recoveries rounds stale_after id clock (r ∷ rs) w =
      elim (recover_one clients rounds id r.now clock
        (claim_then stale_after 10 r.now (r.others w))) [
          | none ↦ none
          | some (outcome, w') ↦ elim (recoveries rounds stale_after id clock rs w') [
            | none ↦ none
            | some (outcomes, w'') ↦ some (outcome ∷ outcomes, w'')
          ]
        ]

  -- A claim rewrites the attempts and the time of rows, and nothing else.
  claimed-find_row :
      (id : String) (ids : List String) (now : ℕ) (ts : List Transfer) (t : Transfer)
      → find_row (with_id id) ts ≡ some t
      → (t' : Transfer) × (find_row (with_id id) (
            update_rows
              (λ (u : Transfer). elem u.id ids)
              (λ u. record u { recovery_attempts = u.recovery_attempts +ℤ pos 1; updated_at = now })
              ts)
          ≡ some t')
        × (t'.state ≡ t.state)
        × (t'.hold_id ≡ t.hold_id)
  claimed-find_row id ids now [] t found = absurd (ground arith)
  claimed-find_row id ids now (u ∷ us) t found = elim (Bool-cases (with_id id u)) [
    | inl hit ↦
        let same : (u ≡ t) = ground arith in
        elim (Bool-cases (elem u.id ids)) [
          | inl named ↦ (
            record u { recovery_attempts = u.recovery_attempts +ℤ pos 1; updated_at = now },
            ground (arith, hit, named),
            ground (arith, same),
            ground (arith, same),
          )
          | inr other ↦ (u, ground (arith, hit, other), ground (arith, same), ground (arith, same))
        ]
    | inr miss ↦
        let (t', row, state, hold) = claimed-find_row id ids now us t (ground arith) in
        elim (Bool-cases (elem u.id ids)) [
          | inl named ↦ (t', ground (arith, miss, named, row), state, hold)
          | inr other ↦ (t', ground (arith, miss, other, row), state, hold)
        ]
  ]

  claim_then-InReleasing :
      (stale_after limit now : ℕ) (id h : String) (w : World W)
      → InReleasing id h w
      → InReleasing id h (claim_then stale_after limit now w)
  unfolding claim_stuck
  claim_then-InReleasing stale_after limit now id h w (t, found, at, has) =
      let claimed = take limit (stuck stale_after now w.db.transfers) in
      let ids = map (λ (u : Transfer). u.id) claimed in
      elim (Bool-cases (all_of has_room claimed)) [
        | inl room ↦
            let (t', row, state, hold) = claimed-find_row id ids now w.db.transfers t found in
            rw (claim_then, room) (t', row, ground (arith, state, at), ground (arith, hold, has))
        | inr full ↦ rw (claim_then, full) (t, found, at, has)
      ]

  recover_one-refused :
      (rounds : ℕ) (id h : String) (now : ℕ) (clock : ℕ → ℕ) (w : World W)
      → Refuses h
      → InReleasing id h w
      → (w' : World W) × (recover_one clients (suc rounds) id now clock w ≡ some (drive_failed, w'))
        × (w'.db ≡ w.db)
  unfolding recover_one retry get_transfer state_eq
  recover_one-refused rounds id h now clock w refuses (t, found, at, has) =
      let same = found-id id t w.db.transfers found in
      let (e, w', stopped, kept) = drive-refused rounds id h clock w t refuses found at has in
      (w', ground (arith, found, at, stopped, same), kept)

  recoveries-InReleasing :
      (rounds stale_after : ℕ) (id h : String) (clock : ℕ → ℕ) (runs : List Run) (w : World W)
      → Refuses h
      → All (λ r. (v : World W) → InReleasing id h v → InReleasing id h (r.others v)) runs
      → InReleasing id h w
      → (w' : World W) × (recoveries (suc rounds) stale_after id clock runs w
          ≡ some (map (λ r. drive_failed) runs, w'))
        × InReleasing id h w'
  unfolding recoveries
  recoveries-InReleasing rounds stale_after id h clock [] w refuses spare stays = (w, refl, stays)
  recoveries-InReleasing rounds stale_after id h clock (r ∷ runs) w refuses spare stays =
      let v = claim_then stale_after 10 r.now (r.others w) in
      let there : InReleasing id h v =
        claim_then-InReleasing stale_after 10 r.now id h (r.others w) (spare.0 w stays) in
      let (w₁, failed, kept) = recover_one-refused rounds id h r.now clock v refuses there in
      let (t, found, at, has) = there in
      let after : InReleasing id h w₁ = (t, ground (arith, found, kept), at, has) in
      let (w₂, outcomes, still) =
        recoveries-InReleasing rounds stale_after id h clock runs w₁ refuses spare.1 after in
      (w₂, ground (arith, failed, outcomes), still)

  -- A transfer in POSTING is over the retry budget, the ledger does not answer whether its entry exists, and
  -- refuses to release its hold, as it does when an entry has captured it. Then recovery moves the transfer
  -- to RELEASING, and however many runs of the recovery follow, each after a claim of the stuck transfers
  -- and after anything that leaves the transfer in RELEASING with its hold, each of them ends with a failed
  -- drive, and the transfer stays in RELEASING with its hold.
  pub recover_one_strands :
      (rounds stale_after : ℕ) (id h : String) (now : ℕ) (clock clock' : ℕ → ℕ) (runs : List Run)
      (w : World W) (t : Transfer)
      → find_row (with_id id) w.db.transfers ≡ some t
      → t.state ≡ posting
      → t.hold_id ≡ some h
      → ltb_ℤ max_attempts t.recovery_attempts ≡ true
      → ((u : W) → (e : GoError) × ((clients.transaction_exists t.id u).0 ≡ err e))
      → Refuses h
      → All (λ r. (v : World W) → InReleasing id h v → InReleasing id h (r.others v)) runs
      → (w' : World W) × (w'' : World W) × (recover_one clients (suc rounds) id now clock w
          ≡ some (release_pending, w'))
        × InReleasing id h w'
        × (recoveries (suc rounds) stale_after id clock' runs w'
            ≡ some (map (λ r. drive_failed) runs, w''))
        × InReleasing id h w''
  unfolding recover_one disambiguate retry settle move unless_raced get_transfer next transitions
      state_eq
  recover_one_strands rounds stale_after id h now clock clock' runs w t found at has over silent
        refuses spare =
      let same = found-id id t w.db.transfers found in
      let here : (find_row (with_id t.id) w.db.transfers ≡ some t) = ground (arith, found, same) in
      let (x, quiet) = silent w.outside in
      let w₁ : World W = record w { outside = (clients.transaction_exists t.id w.outside).1 } in
      let t₁ = because "recovery_exhausted" t in
      let (moved, row, _) =
        transition_fresh t t₁ recovery_exhausted releasing now w₁.db here refl
          (ground (arith, at)) in
      let w₂ : World W = record w₁ { db = (transition t t₁ recovery_exhausted now w₁.db).1 } in
      let t₂ = rewritten (record t₁ { state = releasing }) now t in
      let found₂ : (find_row (with_id id) w₂.db.transfers ≡ some t₂) = ground (arith, row, same) in
      let (e, w₃, first, kept) = drive-refused rounds id h clock w₂ t₂ refuses found₂ refl has in
      let found₃ : (find_row (with_id id) w₃.db.transfers ≡ some t₂) =
        ground (arith, found₂, kept) in
      let stays : InReleasing id h w₃ = (t₂, found₃, refl, has) in
      let (w₄, outcomes, still) =
        recoveries-InReleasing rounds stale_after id h clock' runs w₃ refuses spare stays in
      (w₃, w₄, ground (arith, found, at, quiet, over, moved, first, same), stays, outcomes, still)
