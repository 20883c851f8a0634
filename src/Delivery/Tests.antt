-- ===== src/Delivery/Tests.antt =====
-- Instances of the theorems on deliveries.
use bank_core.Prelude.{
  ℕ, ◌≡◌, ◌+◌, refl, arith, String, Bool, true, false, List, [], ◌∷◌, none, some, string_discrete,
  ne_of_test,
}
use bank_core.Prelude.Results.{Result, ok, err}
use bank_core.Delivery.Consumer.{
  Record, Message, Store, Broker, process_once, attempt, process_with_retry, consume,
}
use bank_core.Delivery.Dedup.{consume_once, process_with_retry_loses}
use bank_core.Delivery.Outbox.{OutboxRow, relay_loop}
use bank_core.Delivery.Relay.{waiting, relay_loop_empties}

-- Counts the messages of a topic, and refuses those of another.
abbrev count_messages : Message → ℕ → Result String ℕ
count_messages msg n = elim (string_discrete msg.topic "good") [
  | yes _ ↦ ok (n + 1)
  | no _ ↦ err "bad"
]

abbrev event : Record
event = record { topic = "good"; key = "k"; value = "e1" }

abbrev poison : Record
poison = record { topic = "bad"; key = "k"; value = "e2" }

abbrev start : Store ℕ
start = record { processed = []; tables = 0 }

abbrev up : Broker
up = record { dead = []; acks = true }

abbrev down : Broker
down = record { dead = []; acks = false }

consume_once_example :
    process_with_retry count_messages
      (λ v. some v)
      "account"
      5
      event
      (record { processed = "e1" ∷ []; tables = 1 })
      down
    ≡ (true, record { processed = "e1" ∷ []; tables = 1 }, down)
unfolding attempt process_once consume process_with_retry string_discrete
consume_once_example =
    consume_once count_messages (λ v. some v) "account" 5 5 4 event "e1" (poison ∷ []) start up down
      refl (ne_of_test "e1" "" refl) refl

process_with_retry_loses_example :
    process_with_retry count_messages (λ v. some v) "account" 5 poison start down
    ≡ (true, start, down)
unfolding attempt process_once string_discrete
process_with_retry_loses_example =
    process_with_retry_loses count_messages (λ v. some v) "account" 5 poison "e2" start down refl
      refl refl

abbrev row : OutboxRow
row = record { id = "m1"; topic = "t"; key = "k"; payload = "p"; created_at = 5; sent_at = none }

-- A broker that keeps nothing.
abbrev sink : List Record → Unit {0} → Bool × Unit {0}
sink records b = (true, b)

relay_loop_empties_example : waiting (relay_loop sink 2 9 (row ∷ []) tt).0 ≡ 0
relay_loop_empties_example =
    relay_loop_empties sink (λ records b. refl) 2 9 (row ∷ []) tt (omega arith)
