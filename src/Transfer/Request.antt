-- ===== src/Transfer/Request.antt =====
-- services/transfer/internal/domain/state.go: the checks of a request.
use bank_core.Prelude.{◌≡◌, ◌↔◌, String, str_eq, ◌&&◌, ◌||◌, not, if◌then◌else◌}
use bank_core.Prelude.Int.{ℤ, pos, ◌+ℤ◌, ◌≤ℤ◌, ◌<ℤ◌, ltb_ℤ, int_laws}
use bank_core.Prelude.Int64.{IsInt64, sub64, sub64_exact}
use bank_core.Prelude.Results.{Result, ok, err}
use bank_core.Transfer.State.{TransferError, invalid_spec, same_account, limit_exceeded}

abbrev pub type_topup : String
type_topup = "TOPUP"

abbrev pub type_internal : String
type_internal = "INTERNAL"

abbrev pub type_p2p : String
type_p2p = "P2P"

-- `ValidateSpec`
unfoldable pub validate_spec :
    String → String → String → String → ℤ → String → Result TransferError (Unit {0})
validate_spec type from_account_id to_account_id to_account_number amount currency =
    if not (ltb_ℤ (pos 0) amount)
    then err invalid_spec
    else if not (str_eq currency "KZT") && not (str_eq currency "USD")
    then err invalid_spec
    else if str_eq type type_topup
    then (if str_eq to_account_id "" || not (str_eq from_account_id "")
        then err invalid_spec
        else ok tt)
    else if str_eq type type_internal
    then (if str_eq from_account_id "" || str_eq to_account_id ""
        then err invalid_spec
        else if str_eq from_account_id to_account_id
        then err same_account
        else ok tt)
    else if str_eq type type_p2p
    then (if str_eq from_account_id "" || str_eq to_account_number ""
        then err invalid_spec
        else ok tt)
    else err invalid_spec

-- `CheckLimits`
unfoldable pub check_limits : ℤ → ℤ → ℤ → ℤ → Result TransferError (Unit {0})
check_limits amount per_tx daily_used daily_limit =
    if ltb_ℤ per_tx amount
    then err limit_exceeded
    else if ltb_ℤ (sub64 daily_limit amount) daily_used
    then err limit_exceeded
    else ok tt

-- For a positive amount and a daily limit that is not negative, both int64, CheckLimits passes
-- exactly where the amount is within the cap of one transfer and what was used today plus the amount
-- is within the daily limit, as integers: no sum wraps around.
pub check_limits_iff :
    (amount per_tx daily_used daily_limit : ℤ)
    → IsInt64 amount
    → IsInt64 daily_limit
    → pos 0 <ℤ amount
    → pos 0 ≤ℤ daily_limit
    → (check_limits amount per_tx daily_used daily_limit ≡ ok tt)
      ↔ ((amount ≤ℤ per_tx) × (daily_used +ℤ amount ≤ℤ daily_limit))
unfolding check_limits
check_limits_iff amount per_tx daily_used daily_limit ha hl positive limit =
    let exact = sub64_exact daily_limit amount (grind (int_laws, ha, hl, positive, limit)) in
    rw exact (λ e. grind (int_laws, e), λ h. grind (int_laws, h))
