-- ===== src/Ledger/Tests/Captures.antt =====
-- Instances of the theorems on captured holds and on the sweep, on the books of the runs.
use bank_core.Prelude.{str_eq}
use bank_core.Ledger.Store.{find_row}
use bank_core.Prelude.{some, arith}
use bank_core.Prelude.{false, List}
use bank_core.Prelude.Results.{ok, err}
use bank_core.Prelude.Int64.{neg64}
use bank_core.Ledger.Store.{account_by_id}
use bank_core.Ledger.Service.{post_new}
use bank_core.Ledger.Domain.{capture_hold, Hold, can_place_hold, release_hold}
use bank_core.Ledger.Store.{get_hold_by_reference, insert_hold, set_hold_status, lock_hold_by_id}
use bank_core.Ledger.Service.{
  reserve, place_hold, place_hold_tx, place_new_hold, release_hold_op, release_hold_tx,
  settle_release,
}
use bank_core.Ledger.Books.{IsConsistent, IsRequest, resolve-cons}
use bank_core.Ledger.Books.Post.{post_transaction-IsConsistent}
use bank_core.Ledger.Books.Sweep.{sweep_exact}
use bank_core.Ledger.Books.Listing.{swept}
use bank_core.Ledger.Service.{sweep, expired}
use bank_core.Ledger.Store.{PostingSpec}
use bank_core.Prelude.{true, map, length, ◌≤◌}
use bank_core.Prelude.{List, [], ◌∷◌, ◌≡◌, refl, string_discrete}
use bank_core.Prelude.Int.{pos, neg, negsuc, ◌+ℤ◌, ◌-ℤ◌}
use bank_core.Prelude.Int64.{wrap}
use bank_core.Ledger.Domain.{
  available, validate_legs, validate_entry, add_checked, check_leg, apply_posting,
}
use bank_core.Ledger.Store.{
  Db, within_tx, account_by_external, account_by_code, account_by_id, get_account_by_ref,
  get_entry_ref, insert_entry, insert_entry_ref, insert_posting, lock_balance, update_balance,
  insert_outbox,
}
use bank_core.Ledger.Service.{
  post_transaction, post_once_tx, post_new, resolve, net_delta, add_int64, capture_step,
  next_balance, next_balances, insert_postings, write_balances, emit_events,
}
use bank_core.Ledger.Tests.{alice, t2_hold, held_books, customer, held_books-IsConsistent}
use bank_core.Ledger.Tests.Replays.{later, stranded-named}
use bank_core.Ledger.Books.Final.{Call, posts, places, releases, sweeps, serve_all, hold_final}
use bank_core.Prelude.{inl}

held_rows : held_books.holds ≡ t2_hold ∷ []
unfolding post_transaction post_once_tx post_new resolve net_delta add_int64 capture_step
    next_balance next_balances insert_postings write_balances emit_events within_tx
    get_account_by_ref account_by_external account_by_code account_by_id get_entry_ref insert_entry
    insert_entry_ref insert_posting lock_balance update_balance insert_outbox validate_entry
    validate_legs check_leg add_checked apply_posting available wrap ◌+ℤ◌ ◌-ℤ◌ string_discrete
    place_hold place_hold_tx place_new_hold reserve get_hold_by_reference insert_hold can_place_hold
    release_hold_op release_hold_tx settle_release release_hold set_hold_status lock_hold_by_id
held_rows = refl

-- The posting of alice's 40 to bob, which captures her hold.
abbrev paid : List PostingSpec
paid =
    record { ref = customer "alice"; amount = negsuc 39; currency = "KZT" }
    ∷ record { ref = customer "bob"; amount = pos 40; currency = "KZT" }
    ∷ []

alice-found : get_account_by_ref (customer "alice") held_books ≡ ok alice
unfolding post_transaction post_once_tx post_new resolve net_delta add_int64 capture_step
    next_balance next_balances insert_postings write_balances emit_events within_tx
    get_account_by_ref account_by_external account_by_code account_by_id get_entry_ref insert_entry
    insert_entry_ref insert_posting lock_balance update_balance insert_outbox validate_entry
    validate_legs check_leg add_checked apply_posting available wrap ◌+ℤ◌ ◌-ℤ◌ string_discrete
    place_hold place_hold_tx place_new_hold reserve get_hold_by_reference insert_hold can_place_hold
    release_hold_op release_hold_tx settle_release release_hold set_hold_status lock_hold_by_id
    capture_hold neg64
alice-found = refl

paid-IsRequest : IsRequest "h1" paid held_books
paid-IsRequest = (
  (ground arith, (ground arith, tt)),
  λ accounts ps resolved h named.
      let (acct, later, found, _, posted) = resolve-cons _ _ [] accounts held_books ps resolved in
      ground (arith, found, alice-found, posted, stranded-named, named),
)

paid-ok :
    (elim (post_transaction later "transfer" "t2" "h1" paid held_books).0 [
      | ok _ ↦ true
      | err _ ↦ false
    ])
    ≡ true
unfolding post_transaction post_once_tx post_new resolve net_delta add_int64 capture_step
    next_balance next_balances insert_postings write_balances emit_events within_tx
    get_account_by_ref account_by_external account_by_code account_by_id get_entry_ref insert_entry
    insert_entry_ref insert_posting lock_balance update_balance insert_outbox validate_entry
    validate_legs check_leg add_checked apply_posting available wrap ◌+ℤ◌ ◌-ℤ◌ string_discrete
    place_hold place_hold_tx place_new_hold reserve get_hold_by_reference insert_hold can_place_hold
    release_hold_op release_hold_tx settle_release release_hold set_hold_status lock_hold_by_id
    capture_hold neg64 neg
paid-ok = refl

post_transaction-IsConsistent_example :
    IsConsistent (post_transaction later "transfer" "t2" "h1" paid held_books).1
post_transaction-IsConsistent_example =
    post_transaction-IsConsistent later "transfer" "t2" "h1" paid held_books held_books-IsConsistent
      paid-IsRequest

one_due : length (expired 60 held_books.holds) ≤ 100
unfolding string_discrete
one_due = rw held_rows (omega arith)

sweep_exact_example :
    ((sweep 60 held_books).holds ≡ map (swept 60) held_books.holds)
    × IsConsistent (sweep 60 held_books)
sweep_exact_example = sweep_exact 60 held_books held_books-IsConsistent one_due

-- Alice's hold once it is captured, and calls that name it.
abbrev spent : Hold
spent = record t2_hold { status = "captured" }

abbrev spent_books : Db
spent_books = record held_books { holds = spent ∷ [] }

spent-found : find_row (λ g. str_eq g.id "h1") spent_books.holds ≡ some spent
unfolding string_discrete
spent-found = refl

abbrev calls : List Call
calls =
    releases "h1"
    ∷ sweeps 60
    ∷ posts later "transfer" "t2" "h1" paid
    ∷ places ("h1" ∷ "h2" ∷ []) (customer "alice") (pos 5) "KZT" "transfer" "t3" 90
    ∷ []

hold_final_example :
    find_row (λ g. str_eq g.id "h1") (serve_all calls spent_books).holds ≡ some spent
hold_final_example = hold_final spent calls spent_books (inl refl) spent-found
