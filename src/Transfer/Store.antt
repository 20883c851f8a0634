-- ===== src/Transfer/Store.antt =====
-- services/transfer/internal/adapters/postgres/store.go: each method with its statement in
-- queries.sql.
use bank_core.Prelude.{
  ℕ, String, str_eq, Bool, true, false, not, ◌&&◌, ◌||◌, leb, ltb, if◌then◌else◌, List, [], ◌∷◌,
  ◌++◌, Option, none, some,
}
use bank_core.Prelude.Int.{ℤ, pos, ◌+ℤ◌, leb_ℤ}
use bank_core.Prelude.Int64.{is_int64}
use bank_core.Prelude.Results.{Result, ok, err}
use bank_core.Ledger.Store.{find_row, update_rows, is_some}
use bank_core.Transfer.State.{State, failed, state_eq}
use bank_core.Transfer.Request.{type_internal, type_p2p, type_topup}
use bank_core.Transfer.Tables.{
  SagaError, not_found, state_raced, db_error, Transfer, Rate, IdempotencyKey, StatusEvent,
  TransferDb, TransferTx,
}

-- `GetTransfer`
unfoldable pub get_transfer : String → TransferDb → Result SagaError Transfer
get_transfer id db = elim (find_row (λ t. str_eq t.id id) db.transfers) [
  | some t ↦ ok t
  | none ↦ err not_found
]

-- The columns that UpdateTransferGuarded writes.
abbrev pub rewritten : Transfer → ℕ → Transfer → Transfer
rewritten t now row = record row {
  state = t.state;
  to_account_id = t.to_account_id;
  counter_amount = t.counter_amount;
  counter_currency = t.counter_currency;
  rate_micros = t.rate_micros;
  rate_pair = t.rate_pair;
  reason = t.reason;
  hold_id = t.hold_id;
  updated_at = now;
}

-- `UpdateTransferGuarded`: no row with the id and the expected state is a lost race.
unfoldable pub update_transfer_guarded : Transfer → State → ℕ → TransferTx (Unit {0})
update_transfer_guarded t expected now db =
    let guarded = λ (row : Transfer). str_eq row.id t.id && state_eq row.state expected in
    if is_some (find_row guarded db.transfers)
    then ok (tt, record db { transfers = update_rows guarded (rewritten t now) db.transfers })
    else err state_raced

-- `AppendEvent`
unfoldable pub append_event : String → State → State → TransferTx (Unit {0})
append_event id from to db = ok (
  tt,
  record db { events = record { transfer_id = id; from_state = from; to_state = to } ∷ db.events },
)

-- `InsertOutbox`
unfoldable pub insert_status : StatusEvent → TransferTx (Unit {0})
insert_status e db = ok (tt, record db { outbox = db.outbox ++ (e ∷ []) })

-- `InsertTransfer`: the key is the id, the amount is positive, and the texts of `CHECK`.
unfoldable pub insert_transfer : Transfer → TransferTx (Unit {0})
insert_transfer t db =
    if leb_ℤ t.amount (pos 0)
    then err db_error
    else if not (str_eq t.currency "KZT") && not (str_eq t.currency "USD")
    then err db_error
    else if not (str_eq t.type type_topup)
        && (not (str_eq t.type type_internal) && not (str_eq t.type type_p2p))
    then err db_error
    else if is_some (find_row (λ row. str_eq row.id t.id) db.transfers)
    then err db_error
    else ok (tt, record db { transfers = t ∷ db.transfers })

abbrev pub has_key : String → String → IdempotencyKey → Bool
has_key customer_id key k = str_eq k.customer_id customer_id && str_eq k.key key

-- `TryInsertIdempotencyKey`: whether the row is new.
unfoldable pub try_insert_key : IdempotencyKey → TransferTx Bool
try_insert_key k db =
    if is_some (find_row (has_key k.customer_id k.key) db.keys)
    then ok (false, db)
    else ok (true, record db { keys = k ∷ db.keys })

-- `GetIdempotencyKey`
unfoldable pub get_key : String → String → TransferDb → Result SagaError IdempotencyKey
get_key customer_id key db = elim (find_row (has_key customer_id key) db.keys) [
  | some k ↦ ok k
  | none ↦ err not_found
]

-- `DeleteExpiredIdempotencyKeys`
unfoldable pub delete_expired_keys : ℕ → List IdempotencyKey → List IdempotencyKey
delete_expired_keys before [] = []
delete_expired_keys before (k ∷ ks) =
    let rest = delete_expired_keys before ks in if ltb k.created_at before then rest else k ∷ rest

-- The newest rate of the pair that is valid at a time.
unfoldable pub latest_rate : String → ℕ → List Rate → Option Rate
latest_rate pair at [] = none
latest_rate pair at (r ∷ rs) =
    let rest = latest_rate pair at rs in
    if str_eq r.pair pair && leb r.valid_from at
    then (elim rest [
      | none ↦ some r
      | some s ↦ if ltb r.valid_from s.valid_from then some s else some r
    ])
    else rest

-- `GetLatestRate`
unfoldable pub get_latest_rate : String → ℕ → TransferDb → Result SagaError Rate
get_latest_rate pair at db = elim (latest_rate pair at db.rates) [
  | some r ↦ ok r
  | none ↦ err not_found
]

-- `GetLimit`
unfoldable pub get_limit : String → String → TransferDb → Result SagaError (ℤ × ℤ)
get_limit tier currency db =
    elim (find_row (λ l. str_eq l.tier tier && str_eq l.currency currency) db.limits) [
      | some l ↦ ok (l.per_tx, l.daily)
      | none ↦ err not_found
    ]

-- `WHERE customer_id = $1 AND currency = $2 AND type IN (…) AND state <> 'FAILED' AND created_at >= $3`
abbrev pub is_outgoing : String → String → ℕ → Transfer → Bool
is_outgoing customer_id currency since t =
    str_eq t.customer_id customer_id
    && (str_eq t.currency currency
        && ((str_eq t.type type_internal || str_eq t.type type_p2p)
            && (not (state_eq t.state failed) && leb since t.created_at)))

abbrev pub sum_outgoing : String → String → ℕ → List Transfer → ℤ
sum_outgoing customer_id currency since [] = pos 0
sum_outgoing customer_id currency since (t ∷ ts) =
    (if is_outgoing customer_id currency since t then t.amount else pos 0)
    +ℤ sum_outgoing customer_id currency since ts

-- `SumDailyOutgoing`: the cast to bigint fails where the sum does not fit.
unfoldable pub sum_daily_outgoing : String → String → ℕ → TransferDb → Result SagaError ℤ
sum_daily_outgoing customer_id currency since db =
    let total = sum_outgoing customer_id currency since db.transfers in
    if is_int64 total then ok total else err db_error
