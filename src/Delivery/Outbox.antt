-- ===== src/Delivery/Outbox.antt =====
-- pkg/outbox: the outbox table (outbox.go) and its relay (relay.go). The broker's produce is a
-- parameter: it gets the records of a batch, tells whether it acknowledges them all, and changes what
-- lies outside.
use bank_core.Prelude.{
  ℕ, zero, suc, ◌==◌, String, str_eq, Bool, true, false, ◌&&◌, ◌||◌, ltb, if◌then◌else◌, List, [],
  ◌∷◌, Option, none, some, map, take, length,
}
use bank_core.Prelude.Sort.{elem, string_le}
use bank_core.Ledger.Store.{find_row, update_rows, is_some}
use bank_core.Delivery.Consumer.{Record}

-- `Message`
pub record OutMessage : Type 0 where
  pub id : String
  pub topic : String
  pub key : String
  pub payload : String

-- A row of `outbox`.
pub record OutboxRow : Type 0 where
  pub id : String
  pub topic : String
  pub key : String
  pub payload : String
  pub created_at : ℕ
  pub sent_at : Option ℕ

-- `Insert`: none where the id is taken.
unfoldable pub insert : OutMessage → ℕ → List OutboxRow → Option (List OutboxRow)
insert m now rows =
    if is_some (find_row (λ (r : OutboxRow). str_eq r.id m.id) rows)
    then none
    else some (
        record {
          id = m.id;
          topic = m.topic;
          key = m.key;
          payload = m.payload;
          created_at = now;
          sent_at = none;
        }
        ∷ rows)

abbrev pub is_unsent : OutboxRow → Bool
is_unsent r = elim r.sent_at [ none ↦ true | some _ ↦ false ]

-- The order of `ORDER BY created_at, id`.
abbrev pub comes_first : OutboxRow → OutboxRow → Bool
comes_first r s =
    ltb r.created_at s.created_at || (r.created_at == s.created_at && string_le r.id s.id)

abbrev pub insert_row : OutboxRow → List OutboxRow → List OutboxRow
insert_row r [] = r ∷ []
insert_row r (s ∷ ss) =
    let rest = insert_row r ss in if comes_first r s then r ∷ s ∷ ss else s ∷ rest

-- The rows that are not sent, in order.
abbrev pub unsent : List OutboxRow → List OutboxRow
unsent [] = []
unsent (r ∷ rs) = let rest = unsent rs in if is_unsent r then insert_row r rest else rest

-- `relayBatch`
abbrev pub relay_batch : ℕ
relay_batch = 100

abbrev pub to_record : OutboxRow → Record
to_record r = record { topic = r.topic; key = r.key; value = r.payload }

abbrev pub ids_of : List OutboxRow → List String
ids_of = map (λ r. r.id)

-- `UPDATE outbox SET sent_at = now() WHERE id = ANY($1)`
abbrev pub mark_sent : List String → ℕ → List OutboxRow → List OutboxRow
mark_sent ids now = update_rows (λ r. elem r.id ids) (λ r. record r { sent_at = some now })

module _ {B : Type 0} (produce : List Record → B → Bool × B) where
  -- `relayOnce` for a batch: the number of rows it relayed, or an error.
  unfoldable pub relay_rows :
      List OutboxRow → ℕ → List OutboxRow → B → Option ℕ × List OutboxRow × B
  relay_rows [] now rows b = (some 0, rows, b)
  relay_rows (r ∷ rs) now rows b =
      let (acked, b') = produce (map to_record (r ∷ rs)) b in
      if acked
      then (some (length (r ∷ rs)), mark_sent (ids_of (r ∷ rs)) now rows, b')
      else (none, rows, b')

  -- `relayOnce`; no other relay has a row locked.
  abbrev pub relay_once : ℕ → List OutboxRow → B → Option ℕ × List OutboxRow × B
  relay_once now rows b = relay_rows (take relay_batch (unsent rows)) now rows b

  -- The inner loop of `Run`, for at most so many batches.
  unfoldable pub relay_loop : ℕ → ℕ → List OutboxRow → B → List OutboxRow × B
  relay_loop zero now rows b = (rows, b)
  relay_loop (suc rounds) now rows b =
      let (n, rows', b') = relay_once now rows b in
      let rest = relay_loop rounds now rows' b' in
      elim n [
        | none ↦ (rows', b')
        | some count ↦ if ltb count relay_batch then (rows', b') else rest
      ]
