-- ===== src/Ledger/Service/Post.antt =====
-- services/ledger/internal/app/service.go: PostTransaction, step by step as the source numbers them.
use bank_core.Prelude.{
  ℕ, ◌+◌, String, str_eq, not, ◌&&◌, ◌||◌, if◌then◌else◌, List, [], ◌∷◌, Option, none, some,
}
use bank_core.Prelude.Int.{ℤ, pos, ltb_ℤ}
use bank_core.Prelude.Int64.{add64, neg64}
use bank_core.Prelude.Dict.{Dict, lookup, insert, keys, get_or}
use bank_core.Prelude.Sort.{sort}
use bank_core.Prelude.Results.{Result, ok, err}
use bank_core.Apperr.{code_invalid_argument}
use bank_core.Ledger.Domain.{
  DomainError, Account, Balance, Posting, overflow, duplicate_reference, hold_not_active,
  hold_account_mismatch, validate_entry, apply_posting, capture_hold,
}
use bank_core.Ledger.Store.{
  Fault, domain, not_found, ref_conflict, held_underflow, PostingSpec, PostingView, EntryView, Db,
  Tx, ◌>>=◌, ◌>>◌, pure, query, lift, within_tx, get_account_by_ref, get_entry_ref,
  get_entry_with_postings, insert_entry, insert_entry_ref, insert_posting, lock_balance,
  update_balance, lock_hold_by_id, set_hold_status, insert_outbox,
}
use bank_core.Ledger.Service.Errors.{AppError, coded, to_app_err}
use bank_core.Ledger.Service.Payload.{same_payload}
use bank_core.Ledger.Service.Holds.{fail_if}

abbrev pub topic_transactions : String
topic_transactions = "ledger.transactions"

-- The clock and the ids of uuid.NewV7 that one call draws.
pub record Draws : Type 0 where
  pub now : ℕ
  pub entry_id : String
  pub posting_id : ℕ → String

-- 1. The accounts, by id, and the legs, in request order.
unfoldable pub resolve :
    List PostingSpec → Dict Account → Db → Result Fault (Dict Account × List Posting)
resolve [] accounts db = ok (accounts, [])
resolve (spec ∷ specs) accounts db = elim (get_account_by_ref spec.ref db) [
  | err e ↦ err e
  | ok acct ↦ elim (resolve specs (insert acct.id acct accounts) db) [
    | err e ↦ err e
    | ok (all, postings) ↦ ok (
      all,
      record { account_id = acct.id; amount = spec.amount; currency = spec.currency } ∷ postings,
    )
  ]
]

-- `addInt64`
unfoldable pub add_int64 : ℤ → ℤ → Option ℤ
unfolding add64
add_int64 a b =
    let sum = add64 a b in
    if (ltb_ℤ (pos 0) b && ltb_ℤ sum a) || (ltb_ℤ b (pos 0) && ltb_ℤ a sum) then none else some sum

-- The net delta of each account.
unfoldable pub net_delta : List Posting → Dict ℤ → Result DomainError (Dict ℤ)
net_delta [] delta = ok delta
net_delta (p ∷ ps) delta = elim (add_int64 (get_or delta p.account_id (pos 0)) p.amount) [
  | none ↦ err overflow
  | some d ↦ net_delta ps (insert p.account_id d delta)
]

-- 4. The hold: it is marked captured, and `heldAdj` takes its amount off the account's holds.
unfoldable pub capture_step : String → String → String → Dict ℤ → Tx (Dict ℤ)
capture_step ref_type ref_id hold_id delta db =
    if str_eq hold_id "" then ok ([], db) else elim (lock_hold_by_id hold_id db) [
      | err not_found ↦ err (domain hold_not_active)
      | err e ↦ err e
      | ok h ↦
          (do
            fail_if (not (str_eq h.reference_type ref_type) || not (str_eq h.reference_id ref_id))
                (domain hold_account_mismatch)
            let net = get_or delta h.account_id (pos 0)
            captured ← lift (capture_hold h (if ltb_ℤ (pos 0) net then pos 0 else net))
            set_hold_status captured.id captured.status
            pure ((h.account_id, neg64 h.amount) ∷ []))
            db
    ]

-- One round of the loop over `affected`: the balance after the delta.
unfoldable pub next_balance :
    String → Dict Account → Dict ℤ → Dict ℤ → Balance → Result Fault Balance
next_balance id accounts delta held_adj b =
    let b' = record b { held = add64 b.held (get_or held_adj id (pos 0)) } in
    let type : String = elim (lookup id accounts) [ some a ↦ a.type | none ↦ "" ] in
    if ltb_ℤ b'.held (pos 0)
    then err held_underflow
    else elim (apply_posting b' type (get_or delta id (pos 0))) [
      | ok nb ↦ ok nb
      | err e ↦ err (domain e)
    ]

-- The loop over `affected` that locks the balances and applies the deltas.
unfoldable pub next_balances :
    List String → Dict Account → Dict ℤ → Dict ℤ → Db → Dict Balance → Result Fault (Dict Balance)
next_balances [] accounts delta held_adj db balances = ok balances
next_balances (id ∷ ids) accounts delta held_adj db balances = elim (lock_balance id db) [
  | err e ↦ err e
  | ok b ↦ elim (next_balance id accounts delta held_adj b) [
    | err e ↦ err e
    | ok nb ↦ next_balances ids accounts delta held_adj db (insert id nb balances)
  ]
]

-- 5. The loop that writes the legs, from leg `i` on. `order[i]` is the leg's own account id.
unfoldable pub insert_postings : Draws → ℕ → Dict Account → List Posting → Tx (List PostingView)
insert_postings draws i accounts [] db = ok ([], db)
insert_postings draws i accounts (p ∷ ps) db =
    let pv : PostingView = record {
      id = draws.posting_id i;
      entry_id = draws.entry_id;
      account_id = p.account_id;
      external_account_id = elim (lookup p.account_id accounts) [
        | some a ↦ a.external_id
        | none ↦ ""
      ];
      amount = p.amount;
      currency = p.currency;
      occurred_at = draws.now;
    } in
    elim (insert_posting pv db) [
      | err e ↦ err e
      | ok (_, db') ↦ elim (insert_postings draws (i + 1) accounts ps db') [
        | err e ↦ err e
        | ok (views, db'') ↦ ok (pv ∷ views, db'')
      ]
    ]

abbrev pub zero_balance : Balance
zero_balance = record {
  account_id = "";
  currency = "";
  balance = pos 0;
  held = pos 0;
  version = pos 0;
}

abbrev pub zero_account : Account
zero_account = record {
  id = "";
  external_id = "";
  internal_code = "";
  type = "";
  currency = "";
  status = "";
}

-- 6. The loop that writes the balances.
unfoldable pub write_balances : List String → Dict Balance → Tx (Unit {0})
write_balances [] balances = pure tt
write_balances (id ∷ ids) balances = do
  update_balance (get_or balances id zero_balance)
  write_balances ids balances

-- 7. One event for each affected account.
unfoldable pub emit_events : List String → Dict Account → Dict Balance → EntryView → Tx (Unit {0})
emit_events [] accounts balances view = pure tt
emit_events (id ∷ ids) accounts balances view = do
  let acct = get_or accounts id zero_account
  insert_outbox (record {
    topic = topic_transactions;
    key = if str_eq acct.external_id "" then acct.internal_code else acct.external_id;
    event = record {
      entry = view;
      account_id = id;
      external_account_id = acct.external_id;
      currency = acct.currency;
      balance_after = (get_or balances id zero_balance).balance;
      version = (get_or balances id zero_balance).version;
    };
  })
  emit_events ids accounts balances view

-- Steps 3 to 7 of `postOnce`, where the reference is new.
unfoldable pub post_new :
    Draws → String → String → String → Dict Account → List Posting → Tx EntryView
post_new draws ref_type ref_id hold_id accounts postings = do
  lift (validate_entry postings accounts)
  delta ← lift (net_delta postings [])
  held_adj ← capture_step ref_type ref_id hold_id delta
  let affected = sort (keys delta)
  balances ← query (λ db. next_balances affected accounts delta held_adj db [])
  insert_entry (record {
    id = draws.entry_id;
    reference_type = ref_type;
    reference_id = ref_id;
    occurred_at = draws.now;
  })
  insert_entry_ref (record {
    reference_type = ref_type;
    reference_id = ref_id;
    entry_id = draws.entry_id;
    occurred_at = draws.now;
  })
  views ← insert_postings draws 0 accounts postings
  write_balances affected balances
  let view : EntryView = record {
    id = draws.entry_id;
    reference_type = ref_type;
    reference_id = ref_id;
    occurred_at = draws.now;
    postings = views;
  }
  emit_events affected accounts balances view
  pure view

-- 2. The idempotency fast path: the entry that the reference has.
unfoldable pub replay : String → ℕ → List Posting → Db → Result Fault EntryView
replay entry_id at postings db = elim (get_entry_with_postings entry_id at db) [
  | err e ↦ err e
  | ok existing ↦
      if not (same_payload existing postings) then err (domain duplicate_reference) else ok existing
]

-- The transaction of `postOnce`.
unfoldable pub post_once_tx : Draws → String → String → String → List PostingSpec → Tx EntryView
post_once_tx draws ref_type ref_id hold_id specs db = elim (resolve specs [] db) [
  | err e ↦ err e
  | ok (accounts, postings) ↦ elim (get_entry_ref ref_type ref_id db) [
    | ok (entry_id, at) ↦ query (replay entry_id at postings) db
    | err not_found ↦ post_new draws ref_type ref_id hold_id accounts postings db
    | err e ↦ err e
  ]
]

-- `replayByReference`, on the store outside a transaction.
unfoldable pub replay_by_reference :
    String → String → List PostingSpec → Db → Result AppError EntryView
replay_by_reference ref_type ref_id specs db = elim (get_entry_ref ref_type ref_id db) [
  | err e ↦ err (to_app_err e)
  | ok (entry_id, at) ↦ elim (get_entry_with_postings entry_id at db) [
    | err e ↦ err (to_app_err e)
    | ok existing ↦ elim (resolve specs [] db) [
      | err e ↦ err (to_app_err e)
      | ok (_, requested) ↦
          if not (same_payload existing requested)
          then err (to_app_err (domain duplicate_reference))
          else ok existing
    ]
  ]
]

-- `PostTransaction`
unfoldable pub post_transaction :
    Draws → String → String → String → List PostingSpec → Db → Result AppError EntryView × Db
post_transaction draws ref_type ref_id hold_id specs db =
    let (r, db') = within_tx (post_once_tx draws ref_type ref_id hold_id specs) db in
    if str_eq ref_type "" || str_eq ref_id ""
    then (err (coded code_invalid_argument), db)
    else elim r [
      | ok view ↦ (ok view, db')
      | err ref_conflict ↦ (replay_by_reference ref_type ref_id specs db', db')
      | err e ↦ (err (to_app_err e), db')
    ]
