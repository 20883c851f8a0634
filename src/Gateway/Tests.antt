-- ===== src/Gateway/Tests.antt =====
-- Runs of the role check.
use bank_core.Prelude.{◌≡◌, refl, Bool, true, false, List, [], ◌∷◌, string_discrete}
use bank_core.Gateway.Authz.{Route, table, allowed}

abbrev callers : List Route → List Bool
callers [] = []
callers (r ∷ rs) = allowed r ("customer" ∷ []) ∷ callers rs

-- A customer may call every route but the last three.
customer_routes :
    callers table
    ≡ true ∷ true ∷ true ∷ true ∷ true ∷ true ∷ true ∷ true ∷ true ∷ true ∷ true ∷ true ∷ true
      ∷ false ∷ false ∷ false ∷ []
unfolding allowed string_discrete
customer_routes = refl
