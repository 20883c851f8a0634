-- ===== src/Account/Consumers.antt =====
-- services/account/internal/adapters/kafka/consumers.go: what the service does with an event, inside the
-- transaction of the consumer.
use Prim.Native.String.{◌++◌ as ◌+++◌}
use bank_core.Prelude.{String, str_eq, not, if◌then◌else◌, [], ◌∷◌, ◌++◌}
use bank_core.Prelude.Results.{ok, err}
use bank_core.Account.Numbers.{status_active, status_frozen}
use bank_core.Account.Tables.{
  no_rows, Projected, account_frozen, AccountTx, upsert_customer, get_status, update_status,
  upsert_balance,
}

-- The event types that are read, and any other.
pub data Incoming : Type 0 where
  transaction_posted : Projected → Incoming
  fraud_alert : (severity account_id rule : String) → Incoming
  customer_registered : (user_id : String) → Incoming
  other : Incoming

-- `applyProjection`
unfoldable pub apply_projection : Projected → AccountTx (Unit {0})
apply_projection b db = if str_eq b.account_id "" then ok (tt, db) else upsert_balance b db

-- The freeze of an account that is active.
unfoldable pub freeze : String → String → AccountTx (Unit {0})
freeze id rule db = elim (update_status id status_frozen db) [
  | err e ↦ err e
  | ok (_, db₁) ↦
      ok (tt, record db₁ { outbox = db₁.outbox ++ account_frozen id ("fraud:" +++ rule) ∷ [] })
]

-- `applyFreeze`
unfoldable pub apply_freeze : String → String → String → AccountTx (Unit {0})
apply_freeze severity id rule db =
    if not (str_eq severity "HIGH")
    then ok (tt, db)
    else if str_eq id ""
    then ok (tt, db)
    else elim (get_status id db) [
      | err no_rows ↦ ok (tt, db)
      | err e ↦ err e
      | ok current ↦ if str_eq current status_active then freeze id rule db else ok (tt, db)
    ]

-- `bootstrapCustomer`; the id is used where the customer is new.
unfoldable pub bootstrap_customer : String → String → AccountTx (Unit {0})
bootstrap_customer id user_id db =
    if str_eq user_id ""
    then ok (tt, db)
    else elim (upsert_customer id user_id db) [ err e ↦ err e | ok (_, db') ↦ ok (tt, db') ]

-- `Handle`
unfoldable pub handle : String → Incoming → AccountTx (Unit {0})
handle id (transaction_posted b) = apply_projection b
handle id (fraud_alert severity account_id rule) = apply_freeze severity account_id rule
handle id (customer_registered user_id) = bootstrap_customer id user_id
handle id other = λ db. ok (tt, db)
