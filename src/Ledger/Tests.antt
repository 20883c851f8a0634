-- ===== src/Ledger/Tests.antt =====
-- Runs of the ledger on a small database, and the instances of the theorems.
mod Replays
mod Captures
mod Payload
use bank_core.Prelude.{none, str_eq}
use bank_core.Ledger.Store.{find_row}
use bank_core.Ledger.Service.{AppError}
use bank_core.Ledger.Books.Returns.{place_hold_returns}
use bank_core.Prelude.{All, some, arith}
use bank_core.Prelude.{false, List, ◌≢◌, ne_of_test}
use bank_core.Prelude.Dict.{Dict}
use bank_core.Prelude.Results.{Result, ok, err}
use bank_core.Prelude.Int64.{IsInt64, neg64}
use bank_core.Ledger.Store.{Fault, EntryView, account_by_id}
use bank_core.Ledger.Service.{post_new}
use bank_core.Ledger.Books.{named_hold, is_posted, AgreesWith}
use bank_core.Ledger.Books.Post.{post_new_strands_hold}
use bank_core.Ledger.Domain.{capture_hold, Posting, Hold, can_place_hold, release_hold}
use bank_core.Ledger.Store.{get_hold_by_reference, insert_hold, set_hold_status, lock_hold_by_id}
use bank_core.Ledger.Service.{
  reserve, sweep, sweep_holds, list_expired_holds, place_hold, place_hold_tx, place_new_hold,
  release_hold_op, release_hold_tx, settle_release,
}
use bank_core.Ledger.Books.{IsConsistent, IsRequest}
use bank_core.Ledger.Books.Place.{tables_after, place_hold-IsConsistent}
use bank_core.Ledger.Books.Once.{post_transaction_once}
use bank_core.Ledger.Books.Post.{post_transaction-IsConsistent}
use bank_core.Ledger.Books.Holds.{release_hold_op-IsConsistent, sweep-IsConsistent}
use bank_core.Prelude.{ℕ, String, List, [], ◌∷◌, ◌≡◌, refl, string_discrete}
use bank_core.Prelude.Int.{ℤ, pos, negsuc, ◌+ℤ◌, ◌-ℤ◌}
use Prim.Native.Nat.{zero, suc}
use bank_core.Prelude.Int64.{wrap}
use bank_core.Ledger.Domain.{
  Account, Balance, available, validate_legs, validate_entry, add_checked, check_leg, apply_posting,
}
use bank_core.Ledger.Store.{
  AccountRef, PostingSpec, Db, within_tx, account_by_external, account_by_code, account_by_id,
  get_account_by_ref, get_entry_ref, insert_entry, insert_entry_ref, insert_posting, lock_balance,
  update_balance, insert_outbox,
}
use bank_core.Ledger.Service.{
  Draws, post_transaction, post_once_tx, post_new, resolve, net_delta, add_int64, capture_step,
  next_balance, next_balances, insert_postings, write_balances, emit_events,
}

abbrev pub alice : Account
alice = record {
  id = "a1";
  external_id = "alice";
  internal_code = "";
  type = "customer";
  currency = "KZT";
  status = "ACTIVE";
}

abbrev pub bob : Account
bob = record {
  id = "b1";
  external_id = "bob";
  internal_code = "";
  type = "customer";
  currency = "KZT";
  status = "ACTIVE";
}

abbrev pub cash_in : Account
cash_in = record {
  id = "c1";
  external_id = "";
  internal_code = "cash_in_kzt";
  type = "internal";
  currency = "KZT";
  status = "ACTIVE";
}

abbrev row : String → ℤ → ℤ → ℤ → Balance
row id balance held version = record {
  account_id = id;
  currency = "KZT";
  balance = balance;
  held = held;
  version = version;
}

abbrev pub empty_books : Db
empty_books = record {
  accounts = alice ∷ bob ∷ cash_in ∷ [];
  balances =
      ("a1", row "a1" (pos 0) (pos 0) (pos 0))
      ∷ ("b1", row "b1" (pos 0) (pos 0) (pos 0))
      ∷ ("c1", row "c1" (pos 0) (pos 0) (pos 0))
      ∷ [];
  entries = [];
  entry_refs = [];
  postings = [];
  holds = [];
  outbox = [];
}

abbrev pub customer : String → AccountRef
customer id = record { external_id = id; internal_code = ""; ledger_id = "" }

abbrev internal : String → AccountRef
internal code = record { external_id = ""; internal_code = code; ledger_id = "" }

abbrev posting_id : ℕ → String
posting_id zero = "p0"
posting_id (suc n) = "p1"

abbrev pub draws : Draws
draws = record { now = 7; entry_id = "e1"; posting_id = posting_id }

abbrev pub top_up : List PostingSpec
top_up =
    record { ref = internal "cash_in_kzt"; amount = negsuc 99; currency = "KZT" }
    ∷ record { ref = customer "alice"; amount = pos 100; currency = "KZT" }
    ∷ []

after_top_up :
    (post_transaction draws "transfer" "t1" "" top_up empty_books).1.balances
    ≡ ("a1", row "a1" (pos 100) (pos 0) (pos 1))
      ∷ ("b1", row "b1" (pos 0) (pos 0) (pos 0))
      ∷ ("c1", row "c1" (negsuc 99) (pos 0) (pos 1))
      ∷ []
unfolding post_transaction post_once_tx post_new resolve net_delta add_int64 capture_step
    next_balance next_balances insert_postings write_balances emit_events within_tx
    get_account_by_ref account_by_external account_by_code account_by_id get_entry_ref insert_entry
    insert_entry_ref insert_posting lock_balance update_balance insert_outbox validate_entry
    validate_legs check_leg add_checked apply_posting available wrap ◌+ℤ◌ ◌-ℤ◌ string_discrete
after_top_up = refl

all_keyed : All (λ acct. account_by_id acct.id empty_books ≡ some acct) empty_books.accounts
unfolding account_by_id string_discrete
all_keyed = (refl, (refl, (refl, tt)))

empty_books-IsConsistent : IsConsistent empty_books
empty_books-IsConsistent = record {
  keyed = all_keyed;
  balanced = λ a b found. record {
    row = record {
      balance_range = ground arith;
      held_range = ground arith;
      held_nonneg = ground arith;
    };
    own_id = ground arith;
    balance_sum = ground arith;
    held_sum = ground arith;
  };
  unused = λ a missing. (refl, refl);
  covered = λ a b acct found known customer. ground arith;
  holds_ok = tt;
  holds_unique = tt;
  conserved = λ c. refl;
}

top_up-IsRequest : IsRequest "" top_up empty_books
unfolding string_discrete
top_up-IsRequest =
    ((ground arith, (ground arith, tt)), λ accounts ps resolved h named. absurd (ground arith))

abbrev pub funded_books : Db
funded_books = (post_transaction draws "transfer" "t1" "" top_up empty_books).1

funded_books-IsConsistent : IsConsistent funded_books
funded_books-IsConsistent =
    post_transaction-IsConsistent draws "transfer" "t1" "" top_up empty_books
      empty_books-IsConsistent top_up-IsRequest

place_hold-IsConsistent_example : IsConsistent (
    tables_after
      (place_hold ("h1" ∷ []) (customer "alice") (pos 40) "KZT" "transfer" "t2" 50 funded_books)
      funded_books)
place_hold-IsConsistent_example =
    place_hold-IsConsistent ("h1" ∷ []) (customer "alice") (pos 40) "KZT" "transfer" "t2" 50
      funded_books funded_books-IsConsistent (ground arith)

abbrev pub held_books : Db
held_books =
    tables_after
      (place_hold ("h1" ∷ []) (customer "alice") (pos 40) "KZT" "transfer" "t2" 50 funded_books)
      funded_books

pub held_books-IsConsistent : IsConsistent held_books
held_books-IsConsistent =
    place_hold-IsConsistent ("h1" ∷ []) (customer "alice") (pos 40) "KZT" "transfer" "t2" 50
      funded_books funded_books-IsConsistent (ground arith)

abbrev pub t2_hold : Hold
t2_hold = record {
  id = "h1";
  account_id = "a1";
  amount = pos 40;
  currency = "KZT";
  reference_type = "transfer";
  reference_id = "t2";
  status = "active";
  expires_at = 50;
}

release_hold_op-IsConsistent_example : IsConsistent (release_hold_op "h1" held_books).1
release_hold_op-IsConsistent_example =
    release_hold_op-IsConsistent "h1" held_books held_books-IsConsistent

after_hold : held_books.holds ≡ t2_hold ∷ []
unfolding post_transaction post_once_tx post_new resolve net_delta add_int64 capture_step
    next_balance next_balances insert_postings write_balances emit_events within_tx
    get_account_by_ref account_by_external account_by_code account_by_id get_entry_ref insert_entry
    insert_entry_ref insert_posting lock_balance update_balance insert_outbox validate_entry
    validate_legs check_leg add_checked apply_posting available wrap ◌+ℤ◌ ◌-ℤ◌ string_discrete
    place_hold place_hold_tx place_new_hold reserve get_hold_by_reference insert_hold can_place_hold
    release_hold_op release_hold_tx settle_release release_hold set_hold_status lock_hold_by_id
after_hold = refl

after_release :
    (release_hold_op "h1" held_books).1.holds ≡ record t2_hold { status = "released" } ∷ []
unfolding post_transaction post_once_tx post_new resolve net_delta add_int64 capture_step
    next_balance next_balances insert_postings write_balances emit_events within_tx
    get_account_by_ref account_by_external account_by_code account_by_id get_entry_ref insert_entry
    insert_entry_ref insert_posting lock_balance update_balance insert_outbox validate_entry
    validate_legs check_leg add_checked apply_posting available wrap ◌+ℤ◌ ◌-ℤ◌ string_discrete
    place_hold place_hold_tx place_new_hold reserve get_hold_by_reference insert_hold can_place_hold
    release_hold_op release_hold_tx settle_release release_hold set_hold_status lock_hold_by_id
after_release = refl

after_sweep : (sweep 60 held_books).holds ≡ record t2_hold { status = "released" } ∷ []
unfolding post_transaction post_once_tx post_new resolve net_delta add_int64 capture_step
    next_balance next_balances insert_postings write_balances emit_events within_tx
    get_account_by_ref account_by_external account_by_code account_by_id get_entry_ref insert_entry
    insert_entry_ref insert_posting lock_balance update_balance insert_outbox validate_entry
    validate_legs check_leg add_checked apply_posting available wrap ◌+ℤ◌ ◌-ℤ◌ string_discrete
    place_hold place_hold_tx place_new_hold reserve get_hold_by_reference insert_hold can_place_hold
    release_hold_op release_hold_tx settle_release release_hold set_hold_status lock_hold_by_id
    sweep sweep_holds list_expired_holds
after_sweep = refl
