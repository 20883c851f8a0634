-- ===== src/Ledger/Books/Post.antt =====
-- Proofs about PostTransaction on the tables.
use bank_core.Prelude.{
  ℕ, ◌≡◌, refl, ◌⊎◌, inl, inr, arith, String, str_eq, true, false, ◌||◌, List, [], some, All,
  Bool-cases, Option-cases, ◌∙◌,
}
use bank_core.Prelude.Int.{ℤ, pos, neg, int_laws}
use bank_core.Prelude.Int64.{IsInt64, neg64, neg64_exact}
use bank_core.Prelude.Dict.{Dict, lookup, get_or}
use bank_core.Prelude.Results.{ok, Result-cases}
use bank_core.Ledger.Domain.{Account, Hold, Posting}
use bank_core.Ledger.Store.{
  find_row, domain, not_found, ref_conflict, held_underflow, db_error, Db, EntryView, PostingSpec,
  get_entry_ref, within_tx,
}
use bank_core.Ledger.Store.Lemmas.{find_row-All, within_tx_keeps}
use bank_core.Ledger.Service.{
  Draws, resolve, replay, capture_step, post_new, post_once_tx, post_transaction,
}
use bank_core.Ledger.Books.Invariant.{IsConsistent, IsHold}
use bank_core.Ledger.Books.Deltas.{is_posted, AgreesWith, resolve-AgreesWith, resolve-amounts}
use bank_core.Ledger.Books.Capture.{named_hold, capture_step-eq, capture_step-none}
use bank_core.Ledger.Books.Steps.{post_new-Steps}
use bank_core.Ledger.Books.Outcome.{Outcome-IsConsistent}
use bank_core.Ledger.Books.Made.{Steps-Outcome}

-- The hold that a posting captures is on the account of one of its legs.
abbrev pub HoldIsPosted : String → List Posting → Db → Type 0
HoldIsPosted hold_id ps db =
    (h : Hold) → named_hold hold_id db ≡ some h → is_posted h.account_id ps ≡ true

capture_step-aside :
    (ref_type ref_id hold_id : String) (delta adj : Dict ℤ) (ps : List Posting) (db db' : Db)
    → HoldIsPosted hold_id ps db
    → capture_step ref_type ref_id hold_id delta db ≡ ok (adj, db')
    → (a : String) → is_posted a ps ≡ false
    → get_or adj a (pos 0) ≡ pos 0
capture_step-aside ref_type ref_id hold_id delta adj ps db db' own e a un =
    elim (Option-cases (named_hold hold_id db)) [
      | inl unnamed ↦
          rw ((capture_step-none ref_type ref_id hold_id delta adj db db' unnamed e).0) refl
      | inr (h, named) ↦
          rw ((capture_step-eq ref_type ref_id hold_id delta adj db db' h named e).1)
            (ground (arith, own h named))
    ]

post_new-IsConsistent :
    (draws : Draws) (ref_type ref_id hold_id : String) (accounts : Dict Account) (ps : List Posting)
    (db db' : Db) (view : EntryView)
    → IsConsistent db
    → AgreesWith db accounts
    → All (λ p. IsInt64 p.amount) ps
    → HoldIsPosted hold_id ps db
    → post_new draws ref_type ref_id hold_id accounts ps db ≡ ok (view, db')
    → IsConsistent db'
post_new-IsConsistent draws ref_type ref_id hold_id accounts ps db db' view c agrees amounts own e =
    let s = post_new-Steps draws ref_type ref_id hold_id accounts ps db db' view e in
    Outcome-IsConsistent ps s.adj db db' c
      (Steps-Outcome ref_type ref_id hold_id accounts ps db db' c agrees amounts s)
      (capture_step-aside ref_type ref_id hold_id s.delta s.adj ps db s.captured own s.capture)

-- What a transaction's request must meet: amounts of type int64, and a hold, where one is named and
-- found, on an account that a leg resolves to.
abbrev pub IsRequest : String → List PostingSpec → Db → Type 0
IsRequest hold_id specs db =
    All (λ s. IsInt64 s.amount) specs
    × ((accounts : Dict Account) (ps : List Posting)
        → resolve specs [] db ≡ ok (accounts, ps)
        → HoldIsPosted hold_id ps db)

pub replayed-same :
    (draws : Draws) (ref_type ref_id hold_id : String) (specs : List PostingSpec) (db db' : Db)
    (view : EntryView) (accounts : Dict Account) (ps : List Posting) (entry_id : String) (at : ℕ)
    → resolve specs [] db ≡ ok (accounts, ps)
    → get_entry_ref ref_type ref_id db ≡ ok (entry_id, at)
    → post_once_tx draws ref_type ref_id hold_id specs db ≡ ok (view, db')
    → db ≡ db'
unfolding post_once_tx
replayed-same draws ref_type ref_id hold_id specs db db' view accounts ps entry_id at resolved known
      e =
    elim (Result-cases (replay entry_id at ps db)) [
      | inl (x, replayed) ↦ ground arith
      | inr (x, refused) ↦ absurd (ground arith)
    ]

post_once_tx-IsConsistent :
    (draws : Draws) (ref_type ref_id hold_id : String) (specs : List PostingSpec) (db db' : Db)
    (view : EntryView)
    → IsConsistent db
    → IsRequest hold_id specs db
    → post_once_tx draws ref_type ref_id hold_id specs db ≡ ok (view, db')
    → IsConsistent db'
unfolding post_once_tx
post_once_tx-IsConsistent draws ref_type ref_id hold_id specs db db' view c (amounts, own) e =
    elim (Result-cases (resolve specs [] db)) [
      | inr (x, unknown) ↦ absurd (ground arith)
      | inl ((accounts, ps), resolved) ↦ elim (Result-cases (get_entry_ref ref_type ref_id db)) [
        | inl ((entry_id, at), known) ↦
            let same : (db ≡ db') =
              replayed-same draws ref_type ref_id hold_id specs db db' view accounts ps entry_id at
                resolved known e in
            rw (← same) c
        | inr (not_found, new) ↦
            post_new-IsConsistent draws ref_type ref_id hold_id accounts ps db db' view c
              (resolve-AgreesWith specs [] accounts db ps c (λ id acct found. absurd (ground arith))
                resolved)
              (resolve-amounts specs [] accounts db ps amounts resolved) (own accounts ps resolved)
              (ground arith)
        | inr (domain x, failed) ↦ absurd (ground arith)
        | inr (ref_conflict, failed) ↦ absurd (ground arith)
        | inr (held_underflow, failed) ↦ absurd (ground arith)
        | inr (db_error, failed) ↦ absurd (ground arith)
      ]
    ]

-- What the caller does with the transaction's result does not touch the tables.
pub post_transaction-tables :
    (draws : Draws) (ref_type ref_id hold_id : String) (specs : List PostingSpec) (db : Db)
    → ((post_transaction draws ref_type ref_id hold_id specs db).1 ≡ db)
      ⊎ ((post_transaction draws ref_type ref_id hold_id specs db).1
          ≡ (within_tx (post_once_tx draws ref_type ref_id hold_id specs) db).1)
unfolding post_transaction
post_transaction-tables draws ref_type ref_id hold_id specs db =
    elim (Bool-cases (str_eq ref_type "" || str_eq ref_id "")) [
      | inl blank ↦ inl (ground arith)
      | inr given ↦ inr (ground arith)
    ]

-- PostTransaction with int64 amounts, and with a hold only of an account among the legs, leaves
-- books in order that were in order, whether it posts, replays or refuses: in every currency what
-- was posted sums to zero, every balance is the sum of its postings, what is held is what the active
-- holds reserve, and no customer balance is below what it holds.
pub post_transaction-IsConsistent :
    (draws : Draws) (ref_type ref_id hold_id : String) (specs : List PostingSpec) (db : Db)
    → IsConsistent db
    → IsRequest hold_id specs db
    → IsConsistent (post_transaction draws ref_type ref_id hold_id specs db).1
post_transaction-IsConsistent draws ref_type ref_id hold_id specs db c r =
    let after =
      within_tx_keeps IsConsistent (post_once_tx draws ref_type ref_id hold_id specs) db c
        (λ view db' done.
          post_once_tx-IsConsistent draws ref_type ref_id hold_id specs db db' view c r done) in
    elim (post_transaction-tables draws ref_type ref_id hold_id specs db) [
      | inl kept ↦ rw kept c
      | inr through ↦ rw through after
    ]

-- Where the new entry captures a hold of an account that none of its legs is on, books that were in
-- order are not in order afterwards.
pub post_new_strands_hold :
    (draws : Draws) (ref_type ref_id hold_id : String) (accounts : Dict Account) (ps : List Posting)
    (db db' : Db) (view : EntryView) (h : Hold)
    → IsConsistent db
    → AgreesWith db accounts
    → All (λ p. IsInt64 p.amount) ps
    → named_hold hold_id db ≡ some h
    → is_posted h.account_id ps ≡ false
    → post_new draws ref_type ref_id hold_id accounts ps db ≡ ok (view, db')
    → ¬ IsConsistent db'
post_new_strands_hold draws ref_type ref_id hold_id accounts ps db db' view h c agrees amounts named
      un e after =
    let s = post_new-Steps draws ref_type ref_id hold_id accounts ps db db' view e in
    let o = Steps-Outcome ref_type ref_id hold_id accounts ps db db' c agrees amounts s in
    let (active, one, _) =
      capture_step-eq ref_type ref_id hold_id s.delta s.adj db s.captured h named s.capture in
    let less : (get_or s.adj h.account_id (pos 0) ≡ neg64 h.amount) = rw one (ground arith) in
    let found : (find_row (λ g. str_eq g.id hold_id) db.holds ≡ some h) = ground arith in
    let hold = (find_row-All IsHold (λ g. str_eq g.id hold_id) db.holds h c.holds_ok found).0 in
    let exact : (neg64 h.amount ≡ neg h.amount) =
      neg64_exact h.amount (omega (int_laws, hold.amount_pos, hold.amount_range)) in
    elim (Option-cases (lookup h.account_id db.balances)) [
      | inl missing ↦
          let (_, before) = c.unused h.account_id missing in
          let (_, now) = after.unused h.account_id (o.kept h.account_id un ∙ missing) in
          grind (int_laws, before, now, o.reserves h.account_id, less, exact, hold.amount_pos)
      | inr (b, there) ↦
          let before = (c.balanced h.account_id b there).held_sum in
          let now = (after.balanced h.account_id b (o.kept h.account_id un ∙ there)).held_sum in
          grind (int_laws, before, now, o.reserves h.account_id, less, exact, hold.amount_pos)
    ]
