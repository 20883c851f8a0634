-- ===== src/Identity/Rules.antt =====
-- services/identity/internal/domain/domain.go: the decision about a refresh token, and the checks of a
-- registration.
use bank_core.Prelude.{ℕ, String, str_eq, Bool, not, ltb, if◌then◌else◌, Option, none, some}
use bank_core.Prelude.Results.{Result, ok, err}
use Prim.Native.String.{count}

pub data RegistrationError : Type 0 where
  invalid_email weak_password empty_name : RegistrationError

-- `RoleCustomer`
abbrev pub role_customer : String
role_customer = "customer"

-- `ValidateRegistration`; `parse_address` tells whether the mail library reads the address.
unfoldable pub validate_registration :
    (String → Bool) → String → String → String → Result RegistrationError (Unit {0})
validate_registration parse_address email password name =
    if not (parse_address email)
    then err invalid_email
    else if ltb (count password) 8
    then err weak_password
    else if str_eq name ""
    then err empty_name
    else ok tt

-- `Session` of the domain: `rotated_to` is the empty text for a token that was not rotated.
pub record Session : Type 0 where
  pub id : String
  pub user_id : String
  pub family_id : String
  pub rotated_to : String
  pub expires_at : ℕ
  pub revoked_at : Option ℕ

pub data RefreshDecision : Type 0 where
  rotate reuse denied expired : RefreshDecision

-- `DecideRefresh`
unfoldable pub decide_refresh : Session → ℕ → RefreshDecision
decide_refresh s now = elim s.revoked_at [
  | some _ ↦ if str_eq s.rotated_to "" then denied else reuse
  | none ↦ if ltb s.expires_at now then expired else rotate
]
