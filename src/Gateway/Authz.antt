-- ===== src/Gateway/Authz.antt =====
-- services/gateway/internal/app/authz.go: the table of routes and the check of roles.
use bank_core.Prelude.{String, Bool, true, false, ◌||◌, List, [], ◌∷◌}
use bank_core.Prelude.Sort.{elem}

-- `RouteClass`
pub data RouteClass : Type 0 where
  public_class read_class transfer_class write_class : RouteClass

pub record Route : Type 0 where
  pub method : String
  pub path : String
  pub roles : List String
  pub class : RouteClass
  pub idempotency : Bool

abbrev pub customer_only : List String
customer_only = "customer" ∷ []

abbrev pub any_authed : List String
any_authed = "customer" ∷ "support" ∷ "admin" ∷ []

abbrev pub staff_only : List String
staff_only = "support" ∷ "admin" ∷ []

abbrev pub route : String → String → List String → RouteClass → Bool → Route
route method path roles class idempotency = record {
  method = method;
  path = path;
  roles = roles;
  class = class;
  idempotency = idempotency;
}

-- `Table`
abbrev pub table : List Route
table =
    route "POST" "/v1/auth/register" [] public_class false
    ∷ route "POST" "/v1/auth/login" [] public_class false
    ∷ route "POST" "/v1/auth/refresh" [] public_class false
    ∷ route "POST" "/v1/auth/logout" [] public_class false
    ∷ route "GET" "/v1/customers/me" any_authed read_class false
    ∷ route "POST" "/v1/accounts" customer_only write_class false
    ∷ route "GET" "/v1/accounts" any_authed read_class false
    ∷ route "GET" "/v1/accounts/:id/transactions" any_authed read_class false
    ∷ route "POST" "/v1/topups" customer_only transfer_class true
    ∷ route "POST" "/v1/transfers" customer_only transfer_class true
    ∷ route "GET" "/v1/transfers/:id" any_authed read_class false
    ∷ route "GET" "/v1/transfers" any_authed read_class false
    ∷ route "GET" "/v1/rates" any_authed read_class false
    ∷ route "GET" "/v1/admin/customers/:id/accounts" staff_only read_class false
    ∷ route "POST" "/v1/admin/accounts/:id/freeze" staff_only write_class false
    ∷ route "POST" "/v1/admin/accounts/:id/unfreeze" staff_only write_class false
    ∷ []

-- The two loops of `Allowed`.
abbrev pub shares : List String → List String → Bool
shares [] have = false
shares (want ∷ wanted) have = elem want have || shares wanted have

-- `Allowed`
unfoldable pub allowed : Route → List String → Bool
allowed r have = elim r.roles [ [] ↦ true | want ∷ wanted ↦ shares (want ∷ wanted) have ]
