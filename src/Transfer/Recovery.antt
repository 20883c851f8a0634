-- ===== src/Transfer/Recovery.antt =====
-- services/transfer/internal/app/recovery.go: the recovery of sagas that are stuck.
use bank_core.Prelude.{
  ℕ, ◌+◌, String, Bool, true, false, not, ◌&&◌, ◌||◌, ltb, leb, if◌then◌else◌, List, [], ◌∷◌,
  Option, none, some, map, take,
}
use bank_core.Prelude.Int.{ℤ, pos, ◌+ℤ◌, ltb_ℤ}
use bank_core.Prelude.Sort.{elem}
use bank_core.Prelude.Results.{Result, ok, err}
use bank_core.Apperr.{GoError}
use bank_core.Ledger.Store.{update_rows}
use bank_core.Transfer.State.{
  State, posting, held, releasing, state_eq, posted, recovery_exhausted, Event,
}
use bank_core.Transfer.Tables.{db_error, Transfer, TransferTx}
use bank_core.Transfer.Store.{get_transfer}
use bank_core.Transfer.Clients.{Clients, World}
use bank_core.Transfer.Saga.{move, unless_raced, because, drive}

-- `state = ANY($1) AND updated_at < now() - $2`
abbrev pub is_stuck : ℕ → ℕ → Transfer → Bool
is_stuck stale_after now t =
    (state_eq t.state held || (state_eq t.state posting || state_eq t.state releasing))
    && ltb (t.updated_at + stale_after) now

abbrev pub all_of : (Transfer → Bool) → List Transfer → Bool
all_of p [] = true
all_of p (t ∷ ts) = p t && all_of p ts

abbrev pub insert_by_update : Transfer → List Transfer → List Transfer
insert_by_update t [] = t ∷ []
insert_by_update t (u ∷ us) =
    let rest = insert_by_update t us in
    if leb t.updated_at u.updated_at then t ∷ u ∷ us else u ∷ rest

-- The stuck transfers, `ORDER BY updated_at`.
unfoldable pub stuck : ℕ → ℕ → List Transfer → List Transfer
stuck stale_after now [] = []
stuck stale_after now (t ∷ ts) =
    let rest = stuck stale_after now ts in
    if is_stuck stale_after now t then insert_by_update t rest else rest

-- The column is an int: past its range the statement fails.
abbrev pub has_room : Transfer → Bool
has_room t = ltb_ℤ (t.recovery_attempts +ℤ pos 1) (pos 2_147_483_648)

-- `ClaimStuck`: the ids, and an attempt more for each. No other worker has a row locked.
unfoldable pub claim_stuck : ℕ → ℕ → ℕ → TransferTx (List String)
claim_stuck stale_after limit now db =
    let claimed = take limit (stuck stale_after now db.transfers) in
    let ids = map (λ (t : Transfer). t.id) claimed in
    if all_of has_room claimed
    then ok (
      ids,
      record db {
        transfers =
            update_rows (λ (t : Transfer). elem t.id ids)
              (λ t. record t { recovery_attempts = t.recovery_attempts +ℤ pos 1; updated_at = now })
              db.transfers;
      },
    )
    else err db_error

-- The outcomes that recoverOne reports.
pub data Outcome : Type 0 where
  load_failed transition_failed completed_entry_found release_pending : Outcome
  failed_exhausted drive_failed : Outcome
  in_state : State → Outcome

-- `maxAttempts`
abbrev pub max_attempts : ℤ
max_attempts = pos 5

module _ {W : Type 0} (clients : Clients W) where
  -- A transition of the recovery, and whether it may go on.
  unfoldable pub settle : Transfer → Transfer → Event → ℕ → World W → Bool × World W
  settle t t' event now w =
      let (r, w') = move clients unless_raced t t' event now w in
      (elim r [ ok _ ↦ true | err _ ↦ false ], w')

  -- `recoverOne` from the budget check on.
  unfoldable pub retry : ℕ → Transfer → ℕ → (ℕ → ℕ) → World W → Option (Outcome × World W)
  retry rounds t now clock w =
      if ltb_ℤ max_attempts t.recovery_attempts && not (state_eq t.state releasing)
      then (let (may_go_on, w₁) =
            settle t (because "recovery_exhausted" t) recovery_exhausted now w in
          if may_go_on
          then elim (drive clients rounds t.id clock w₁) [
            | none ↦ none
            | some (err _, w₂) ↦ some (release_pending, w₂)
            | some (ok _, w₂) ↦ some (failed_exhausted, w₂)
          ]
          else some (transition_failed, w₁))
      else elim (drive clients rounds t.id clock w) [
        | none ↦ none
        | some (err _, w₂) ↦ some (drive_failed, w₂)
        | some (ok final, w₂) ↦ some (in_state final.state, w₂)
      ]

  -- What the ledger's answer to TransactionExists leads to.
  unfoldable pub disambiguate :
      ℕ → Transfer → ℕ → (ℕ → ℕ) → Result GoError Bool → World W → Option (Outcome × World W)
  disambiguate rounds t now clock (ok true) w =
      let (may_go_on, w') = settle t t posted now w in
      some ((if may_go_on then completed_entry_found else transition_failed), w')
  disambiguate rounds t now clock (ok false) w = retry rounds t now clock w
  disambiguate rounds t now clock (err _) w = retry rounds t now clock w

  -- `recoverOne`
  unfoldable pub recover_one : ℕ → String → ℕ → (ℕ → ℕ) → World W → Option (Outcome × World W)
  recover_one rounds id now clock w = elim (get_transfer id w.db) [
    | err _ ↦ some (load_failed, w)
    | ok t ↦
        if state_eq t.state posting
        then (let (r, out) = clients.transaction_exists t.id w.outside in
            disambiguate rounds t now clock r (record w { outside = out }))
        else retry rounds t now clock w
  ]

  -- The loop of RunOnce.
  unfoldable pub recover_all :
      ℕ → List String → ℕ → (ℕ → ℕ) → World W → Option (List Outcome × World W)
  recover_all rounds [] now clock w = some ([], w)
  recover_all rounds (id ∷ ids) now clock w = elim (recover_one rounds id now clock w) [
    | none ↦ none
    | some (outcome, w') ↦ elim (recover_all rounds ids now clock w') [
      | none ↦ none
      | some (outcomes, w'') ↦ some (outcome ∷ outcomes, w'')
    ]
  ]

  -- `RunOnce`
  unfoldable pub run_once : ℕ → ℕ → ℕ → (ℕ → ℕ) → World W → Option (List Outcome × World W)
  run_once rounds stale_after now clock w = elim (claim_stuck stale_after 10 now w.db) [
    | err _ ↦ some ([], w)
    | ok (ids, db') ↦ recover_all rounds ids now clock (record w { db = db' })
  ]
