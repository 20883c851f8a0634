-- ===== src/Delivery/Consumer.antt =====
-- pkg/kafka/consumer.go: one record from its fetch to its commit. The handler and the decoding of an
-- envelope are parameters; `D` is what the handler's transaction writes, `E` its errors.
use Prim.Native.String.{◌++◌ as ◌+++◌}
use bank_core.Prelude.{
  ℕ, zero, suc, String, str_eq, Bool, true, false, if◌then◌else◌, List, [], ◌∷◌, Option, none, some,
}
use bank_core.Prelude.Results.{Result, ok, err}
use bank_core.Prelude.Sort.{elem}

-- A record of a topic; the value is opaque.
pub record Record : Type 0 where
  pub topic : String
  pub key : String
  pub value : String

-- `Message`, as the handler gets it.
pub record Message : Type 0 where
  pub event_id : String
  pub topic : String
  pub key : String
  pub value : String

-- The database of a service: the ids in `processed_messages` of its group, and the rest.
pub record Store (D : Type 0) : Type 0 where
  pub processed : List String
  pub tables : D

-- What lies outside: the dead letters, and whether a produce to them is acknowledged.
pub record Broker : Type 0 where
  pub dead : List Record
  pub acks : Bool

module _ {D E : Type 0} (handler : Message → D → Result E D) where
  -- `processOnce`: the marker and the handler's writes are one transaction.
  unfoldable pub process_once : Message → Store D → Result E (Unit {0}) × Store D
  process_once msg s =
      if elem msg.event_id s.processed then (ok tt, s) else elim (handler msg s.tables) [
        | err e ↦ (err e, s)
        | ok d ↦ (ok tt, record { processed = msg.event_id ∷ s.processed; tables = d })
      ]

  -- The attempts of processWithRetry: whether one was right.
  unfoldable pub attempt : ℕ → Message → Store D → Bool × Store D
  attempt zero msg s = (false, s)
  attempt (suc n) msg s =
      let (r, s') = process_once msg s in
      let rest = attempt n msg s' in elim r [ ok _ ↦ (true, s') | err _ ↦ rest ]

  module _ (decode : String → Option String) (group : String) where
    -- `toDLQ`: where the produce fails, the error is logged.
    unfoldable pub to_dlq : Record → Broker → Broker
    to_dlq r b =
        if b.acks
        then record b {
          dead =
              record { topic = group +++ "." +++ r.topic +++ ".dlq"; key = r.key; value = r.value }
              ∷ b.dead;
        }
        else b

    abbrev pub message : String → Record → Message
    message id r = record { event_id = id; topic = r.topic; key = r.key; value = r.value }

    -- `processWithRetry` with so many attempts and no shutdown: whether the offset is to be marked.
    -- `decode` gives the event id of an envelope.
    unfoldable pub process_with_retry : ℕ → Record → Store D → Broker → Bool × Store D × Broker
    process_with_retry attempts r s b = elim (decode r.value) [
      | none ↦ (true, s, to_dlq r b)
      | some id ↦
          if str_eq id ""
          then (true, s, to_dlq r b)
          else let (fine, s') = attempt attempts (message id r) s in
            (true, s', (if fine then b else to_dlq r b))
    ]

    -- The records of a partition, in order.
    unfoldable pub consume : ℕ → List Record → Store D → Broker → Store D × Broker
    consume attempts [] s b = (s, b)
    consume attempts (r ∷ rs) s b =
        let (_, s', b') = process_with_retry attempts r s b in consume attempts rs s' b'
