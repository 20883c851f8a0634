-- ===== src/Ledger/Tests/Replays.antt =====
-- Instances of the theorems on posting and placing holds, on the books of the runs.
use bank_core.Prelude.{none, str_eq}
use bank_core.Ledger.Store.{find_row}
use bank_core.Ledger.Service.{AppError}
use bank_core.Ledger.Books.Returns.{place_hold_returns}
use bank_core.Prelude.{All, some, arith}
use bank_core.Prelude.{false, List, ◌≢◌, ne_of_test}
use bank_core.Prelude.Dict.{Dict}
use bank_core.Prelude.Results.{Result, ok, err}
use bank_core.Prelude.Int64.{IsInt64, neg64}
use bank_core.Ledger.Store.{Fault, EntryView, account_by_id}
use bank_core.Ledger.Service.{post_new}
use bank_core.Ledger.Books.{named_hold, is_posted, AgreesWith}
use bank_core.Ledger.Books.Post.{post_new_strands_hold}
use bank_core.Ledger.Domain.{capture_hold, Posting, Hold, can_place_hold, release_hold}
use bank_core.Ledger.Store.{get_hold_by_reference, insert_hold, set_hold_status, lock_hold_by_id}
use bank_core.Ledger.Service.{
  reserve, place_hold, place_hold_tx, place_new_hold, release_hold_op, release_hold_tx,
  settle_release,
}
use bank_core.Ledger.Books.{IsConsistent}
use bank_core.Ledger.Books.Once.{post_transaction_once}
use bank_core.Prelude.{ℕ, String, List, [], ◌∷◌, ◌≡◌, refl, string_discrete}
use bank_core.Prelude.Int.{pos, negsuc, ◌+ℤ◌, ◌-ℤ◌}
use Prim.Native.Nat.{zero, suc}
use bank_core.Prelude.Int64.{wrap}
use bank_core.Ledger.Domain.{
  Account, available, validate_legs, validate_entry, add_checked, check_leg, apply_posting,
}
use bank_core.Ledger.Store.{
  Db, within_tx, account_by_external, account_by_code, account_by_id, get_account_by_ref,
  get_entry_ref, insert_entry, insert_entry_ref, insert_posting, lock_balance, update_balance,
  insert_outbox,
}
use bank_core.Ledger.Service.{
  Draws, post_transaction, post_once_tx, post_new, resolve, net_delta, add_int64, capture_step,
  next_balance, next_balances, insert_postings, write_balances, emit_events,
}
use bank_core.Ledger.Tests.{
  alice, bob, cash_in, t2_hold, held_books, empty_books, funded_books, draws, top_up, customer,
  held_books-IsConsistent,
}

-- An entry that captures alice's hold, and moves 10 from the cash account to bob.
abbrev bob_legs : List Posting
bob_legs =
    record { account_id = "c1"; amount = negsuc 9; currency = "KZT" }
    ∷ record { account_id = "b1"; amount = pos 10; currency = "KZT" }
    ∷ []

abbrev bob_accounts : Dict Account
bob_accounts = ("c1", cash_in) ∷ ("b1", bob) ∷ []

abbrev later_id : ℕ → String
later_id zero = "p2"
later_id (suc n) = "p3"

abbrev pub later : Draws
later = record { now = 9; entry_id = "e2"; posting_id = later_id }

abbrev stranded : Result Fault (EntryView × Db)
stranded = post_new later "transfer" "t2" "h1" bob_accounts bob_legs held_books

abbrev stranded_view : EntryView
stranded_view = elim stranded [
  | ok (view, _) ↦ view
  | err _ ↦ record {
    id = "";
    reference_type = "";
    reference_id = "";
    occurred_at = 0;
    postings = [];
  }
]

abbrev stranded_books : Db
stranded_books = elim stranded [ ok (_, db) ↦ db | err _ ↦ held_books ]

stranded-ok : stranded ≡ ok (stranded_view, stranded_books)
unfolding post_transaction post_once_tx post_new resolve net_delta add_int64 capture_step
    next_balance next_balances insert_postings write_balances emit_events within_tx
    get_account_by_ref account_by_external account_by_code account_by_id get_entry_ref insert_entry
    insert_entry_ref insert_posting lock_balance update_balance insert_outbox validate_entry
    validate_legs check_leg add_checked apply_posting available wrap ◌+ℤ◌ ◌-ℤ◌ string_discrete
    place_hold place_hold_tx place_new_hold reserve get_hold_by_reference insert_hold can_place_hold
    release_hold_op release_hold_tx settle_release release_hold set_hold_status lock_hold_by_id
    capture_hold neg64
stranded-ok = refl

pub stranded-named : named_hold "h1" held_books ≡ some t2_hold
unfolding post_transaction post_once_tx post_new resolve net_delta add_int64 capture_step
    next_balance next_balances insert_postings write_balances emit_events within_tx
    get_account_by_ref account_by_external account_by_code account_by_id get_entry_ref insert_entry
    insert_entry_ref insert_posting lock_balance update_balance insert_outbox validate_entry
    validate_legs check_leg add_checked apply_posting available wrap ◌+ℤ◌ ◌-ℤ◌ string_discrete
    place_hold place_hold_tx place_new_hold reserve get_hold_by_reference insert_hold can_place_hold
    release_hold_op release_hold_tx settle_release release_hold set_hold_status lock_hold_by_id
stranded-named = refl

same_accounts : held_books.accounts ≡ alice ∷ bob ∷ cash_in ∷ []
unfolding post_transaction post_once_tx post_new resolve net_delta add_int64 capture_step
    next_balance next_balances insert_postings write_balances emit_events within_tx
    get_account_by_ref account_by_external account_by_code account_by_id get_entry_ref insert_entry
    insert_entry_ref insert_posting lock_balance update_balance insert_outbox validate_entry
    validate_legs check_leg add_checked apply_posting available wrap ◌+ℤ◌ ◌-ℤ◌ string_discrete
    place_hold place_hold_tx place_new_hold reserve get_hold_by_reference insert_hold can_place_hold
    release_hold_op release_hold_tx settle_release release_hold set_hold_status lock_hold_by_id
same_accounts = refl

c1≢a1 : ◌≢◌ {A = String} "c1" "a1"
unfolding string_discrete
c1≢a1 = ne_of_test "c1" "a1" refl

c1≢b1 : ◌≢◌ {A = String} "c1" "b1"
unfolding string_discrete
c1≢b1 = ne_of_test "c1" "b1" refl

b1≢a1 : ◌≢◌ {A = String} "b1" "a1"
unfolding string_discrete
b1≢a1 = ne_of_test "b1" "a1" refl

bob_accounts-AgreesWith :
    (db : Db) → db.accounts ≡ alice ∷ bob ∷ cash_in ∷ [] → AgreesWith db bob_accounts
unfolding account_by_id
bob_accounts-AgreesWith db same id acct found = rw same (ground (arith, c1≢a1, c1≢b1, b1≢a1))

stranded-amounts : All (λ p. IsInt64 p.amount) bob_legs
stranded-amounts = (ground arith, (ground arith, tt))

unposted : is_posted "a1" bob_legs ≡ false
unfolding string_discrete
unposted = refl

post_new_strands_hold_example : ¬ IsConsistent stranded_books
post_new_strands_hold_example =
    post_new_strands_hold later "transfer" "t2" "h1" bob_accounts bob_legs held_books stranded_books
      stranded_view t2_hold held_books-IsConsistent
      (bob_accounts-AgreesWith held_books same_accounts) stranded-amounts stranded-named unposted
      stranded-ok

abbrev top_up_view : EntryView
top_up_view = elim (post_transaction draws "transfer" "t1" "" top_up empty_books).0 [
  | ok view ↦ view
  | err _ ↦ stranded_view
]

top_up-ok :
    post_transaction draws "transfer" "t1" "" top_up empty_books ≡ (ok top_up_view, funded_books)
unfolding post_transaction post_once_tx post_new resolve net_delta add_int64 capture_step
    next_balance next_balances insert_postings write_balances emit_events within_tx
    get_account_by_ref account_by_external account_by_code account_by_id get_entry_ref insert_entry
    insert_entry_ref insert_posting lock_balance update_balance insert_outbox validate_entry
    validate_legs check_leg add_checked apply_posting available wrap ◌+ℤ◌ ◌-ℤ◌ string_discrete
    place_hold place_hold_tx place_new_hold reserve get_hold_by_reference insert_hold can_place_hold
    release_hold_op release_hold_tx settle_release release_hold set_hold_status lock_hold_by_id
top_up-ok = refl

-- The same top-up again.
post_transaction_once_example :
    (post_transaction later "transfer" "t1" "" top_up funded_books).1 ≡ funded_books
post_transaction_once_example =
    post_transaction_once draws later "transfer" "t1" "" "" top_up top_up empty_books funded_books
      top_up_view top_up-ok

no_h1 : find_row (λ h. str_eq h.id "h1") empty_books.holds ≡ none
no_h1 = refl

place_hold_returns_example :
    (r : Result AppError Hold × Db) × (place_hold
        ("h1" ∷ [])
        (customer "alice")
        (pos 40)
        "KZT"
        "transfer"
        "t2"
        50
        empty_books
      ≡ some r)
place_hold_returns_example =
    place_hold_returns "h1" [] (customer "alice") (pos 40) "KZT" "transfer" "t2" 50 empty_books
      no_h1
