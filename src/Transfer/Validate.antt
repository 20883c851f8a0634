-- ===== src/Transfer/Validate.antt =====
-- services/transfer/internal/app/service.go: `validate`, without its writes.
use bank_core.Prelude.{
  ℕ, ◌-◌, ◌%◌, String, str_eq, not, ◌&&◌, ◌||◌, if◌then◌else◌, Option, none, some,
}
use bank_core.Prelude.Int.{ℤ, pos, leb_ℤ}
use bank_core.Prelude.Int64.{sub64}
use bank_core.Prelude.Results.{Result, ok, err}
use bank_core.Apperr.{GoError, from_grpc, code_upstream_unavailable, code_not_found, code_forbidden}
use bank_core.Money.{MoneyError, convert, convert_inverse}
use bank_core.Transfer.Request.{type_topup, type_internal, type_p2p, check_limits}
use bank_core.Transfer.Tables.{SagaError, not_found, Transfer, AccountInfo, TransferDb, client}
use bank_core.Transfer.Store.{get_latest_rate, get_limit, sum_daily_outgoing}
use bank_core.Transfer.Clients.{Clients}

abbrev pub rate_pair_usdkzt : String
rate_pair_usdkzt = "USDKZT"

abbrev pub default_tier : String
default_tier = "default"

abbrev pub no_account : AccountInfo
no_account = record { id = ""; user_id = ""; number = ""; currency = ""; status = "" }

-- What `validate` comes to: the transfer is parked, it fails for a reason, an error is returned, or
-- the values are locked in.
pub data Verdict : Type 0 where
  parked : Verdict
  fails : String → Verdict
  errs : SagaError → Verdict
  locks : String → Option ℤ → String → Option ℤ → Option String → Verdict

module _ {W : Type 0} (clients : Clients W) where
  -- The source, and then the destination if the source was found.
  unfoldable pub fetch_both :
      String
      → (W → Result GoError AccountInfo × W)
      → W
      → Result GoError (AccountInfo × AccountInfo) × W
  fetch_both from_id fetch_to w =
      let (r, w') = clients.get_account from_id w in
      elim r [
        | err e ↦ (err e, w')
        | ok from ↦
            let (r', w'') = fetch_to w' in (elim r' [ ok to ↦ ok (from, to) | err e ↦ err e ], w'')
      ]

  -- The `switch` that resolves the two accounts.
  unfoldable pub fetch_accounts : Transfer → W → Result GoError (AccountInfo × AccountInfo) × W
  fetch_accounts t w =
      if str_eq t.type type_topup
      then (let (r, w') = clients.get_account t.to_account_id w in
          (elim r [ ok to ↦ ok (no_account, to) | err e ↦ err e ], w'))
      else if str_eq t.type type_internal
      then fetch_both t.from_account_id (clients.get_account t.to_account_id) w
      else if str_eq t.type type_p2p
      then fetch_both t.from_account_id (clients.resolve_by_number t.to_account_number) w
      else (ok (no_account, no_account), w)

-- What an error of the account service means.
unfoldable pub lookup_verdict : GoError → Verdict
lookup_verdict e =
    let code = from_grpc e in
    if str_eq code code_upstream_unavailable
    then parked
    else if str_eq code code_not_found
    then fails "ACCOUNT_NOT_FOUND"
    else if str_eq code code_forbidden
    then fails "NOT_ACCOUNT_OWNER"
    else errs (client e)

-- The checks of owner, status and currency: the reason of a failure.
unfoldable pub check_accounts : Transfer → AccountInfo → AccountInfo → Option String
check_accounts t from to =
    let topup = str_eq t.type type_topup in
    let source_currency = if topup then to.currency else from.currency in
    if not topup && not (str_eq from.user_id t.customer_id)
    then some "NOT_ACCOUNT_OWNER"
    else if (topup || str_eq t.type type_internal) && not (str_eq to.user_id t.customer_id)
    then some "NOT_ACCOUNT_OWNER"
    else if not topup && not (str_eq from.status "ACTIVE")
    then some "ACCOUNT_FROZEN"
    else if not (str_eq to.status "ACTIVE")
    then some "ACCOUNT_FROZEN"
    else if str_eq t.type type_p2p && str_eq from.id to.id
    then some "SAME_ACCOUNT"
    else if not (str_eq t.currency source_currency)
    then some "CURRENCY_MISMATCH"
    else none

-- What the conversion at an applied rate comes to.
unfoldable pub lock_amount : String → String → String → ℤ → Result MoneyError ℤ → Verdict
lock_amount to_id to_currency pair applied (err _) = fails "CONVERSION_FAILED"
lock_amount to_id to_currency pair applied (ok counter) =
    if leb_ℤ counter (pos 0)
    then fails "AMOUNT_TOO_SMALL"
    else locks to_id (some counter) to_currency (some applied) (some pair)

-- The FX lock.
unfoldable pub lock_rate : Transfer → AccountInfo → AccountInfo → ℕ → TransferDb → Verdict
lock_rate t from to now db =
    if str_eq t.type type_topup || str_eq from.currency to.currency
    then locks to.id none "" none none
    else elim (get_latest_rate rate_pair_usdkzt now db) [
      | err not_found ↦ fails "RATE_UNAVAILABLE"
      | err e ↦ errs e
      | ok rate ↦
          if str_eq from.currency "USD" && str_eq to.currency "KZT"
          then lock_amount to.id to.currency rate.pair rate.buy_micros
              (convert t.amount rate.buy_micros)
          else if str_eq from.currency "KZT" && str_eq to.currency "USD"
          then lock_amount to.id to.currency rate.pair rate.sell_micros
              (convert_inverse t.amount rate.sell_micros)
          else fails "UNSUPPORTED_CURRENCY_PAIR"
    ]

-- `24 * time.Hour`, in microseconds.
abbrev pub one_day : ℕ
one_day = 86_400_000_000

-- The limits: the transfer's own amount is taken off what was used.
unfoldable pub check_daily : Transfer → ℕ → TransferDb → Verdict → Verdict
check_daily t now db locked =
    if str_eq t.type type_topup then locked else elim (get_limit default_tier t.currency db) [
      | err e ↦ errs e
      | ok (per_tx, daily) ↦
          elim (sum_daily_outgoing t.customer_id t.currency (now - now % one_day) db) [
            | err e ↦ errs e
            | ok used ↦ elim (check_limits t.amount per_tx (sub64 used t.amount) daily) [
              | err _ ↦ fails "LIMIT_EXCEEDED"
              | ok _ ↦ locked
            ]
          ]
    ]

-- `validate` from the accounts on.
unfoldable pub verdict : Transfer → AccountInfo → AccountInfo → ℕ → TransferDb → Verdict
verdict t from to now db = elim (check_accounts t from to) [
  | some reason ↦ fails reason
  | none ↦ elim (lock_rate t from to now db) [
    | locks to_id counter currency micros pair ↦
        check_daily t now db (locks to_id counter currency micros pair)
    | stop ↦ stop
  ]
]
