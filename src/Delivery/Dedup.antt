-- ===== src/Delivery/Dedup.antt =====
-- Proofs about the retries and the deduplication of pkg/kafka/consumer.go.
use bank_core.Prelude.{
  ℕ, zero, suc, ◌≡◌, ◌≢◌, refl, arith, inl, inr, String, str_eq, str_eq_iff, true, false, List, [],
  ◌∷◌, Option, some, Bool-cases, Option-cases,
}
use bank_core.Prelude.Results.{Result, ok, err, Result-cases}
use bank_core.Prelude.Sort.{elem}
use bank_core.Delivery.Consumer.{
  Record, Message, Store, Broker, process_once, attempt, to_dlq, message, process_with_retry,
  consume,
}

module _ {D E : Type 0} (handler : Message → D → Result E D) where
  process_once-marks :
      (msg : Message) (s : Store D)
      → (process_once handler msg s).0 ≡ ok tt
      → elem msg.event_id (process_once handler msg s).1.processed ≡ true
  unfolding process_once
  process_once-marks msg s h = elim (Bool-cases (elem msg.event_id s.processed)) [
    | inl seen ↦ ground (arith, seen)
    | inr fresh ↦ elim (Result-cases (handler msg s.tables)) [
      | inl (d, fine) ↦ ground (arith, fresh, fine, (str_eq_iff msg.event_id msg.event_id).1 refl)
      | inr (e, fails) ↦ absurd (ground (arith, fresh, fails, h))
    ]
  ]

  process_once-keeps :
      (msg : Message) (s : Store D) (id : String)
      → elem id s.processed ≡ true
      → elem id (process_once handler msg s).1.processed ≡ true
  unfolding process_once
  process_once-keeps msg s id h = elim (Bool-cases (elem msg.event_id s.processed)) [
    | inl seen ↦ ground (arith, seen, h)
    | inr fresh ↦ elim (Result-cases (handler msg s.tables)) [
      | inl (d, fine) ↦ ground (arith, fresh, fine, h)
      | inr (e, fails) ↦ ground (arith, fresh, fails, h)
    ]
  ]

  process_once-fails :
      (msg : Message) (s : Store D) (e : E)
      → (process_once handler msg s).0 ≡ err e
      → (process_once handler msg s).1 ≡ s
  unfolding process_once
  process_once-fails msg s e h = elim (Bool-cases (elem msg.event_id s.processed)) [
    | inl seen ↦ ground (arith, seen)
    | inr fresh ↦ elim (Result-cases (handler msg s.tables)) [
      | inl (d, fine) ↦ absurd (ground (arith, fresh, fine, h))
      | inr (x, fails) ↦ ground (arith, fresh, fails)
    ]
  ]

  attempt-marks :
      (n : ℕ) (msg : Message) (s : Store D)
      → (attempt handler n msg s).0 ≡ true
      → elem msg.event_id (attempt handler n msg s).1.processed ≡ true
  unfolding attempt
  attempt-marks zero msg s h = absurd (ground arith)
  attempt-marks (suc n) msg s h = elim (Result-cases (process_once handler msg s).0) [
    | inl (_, fine) ↦ ground (arith, fine, process_once-marks msg s (ground (arith, fine)))
    | inr (e, fails) ↦
        let ih = attempt-marks n msg (process_once handler msg s).1 (ground (arith, fails, h)) in
        ground (arith, fails, ih)
  ]

  attempt-keeps :
      (n : ℕ) (msg : Message) (s : Store D) (id : String)
      → elem id s.processed ≡ true
      → elem id (attempt handler n msg s).1.processed ≡ true
  unfolding attempt
  attempt-keeps zero msg s id h = h
  attempt-keeps (suc n) msg s id h =
      let kept = process_once-keeps msg s id h in
      elim (Result-cases (process_once handler msg s).0) [
        | inl (_, fine) ↦ ground (arith, fine, kept)
        | inr (e, fails) ↦
            ground (arith, fails, attempt-keeps n msg (process_once handler msg s).1 id kept)
      ]

  -- Where no attempt was right, nothing is written.
  attempt-fails :
      (n : ℕ) (msg : Message) (s : Store D)
      → (attempt handler n msg s).0 ≡ false
      → (attempt handler n msg s).1 ≡ s
  unfolding attempt
  attempt-fails zero msg s h = refl
  attempt-fails (suc n) msg s h = elim (Result-cases (process_once handler msg s).0) [
    | inl (_, fine) ↦ absurd (ground (arith, fine, h))
    | inr (e, fails) ↦
        let same = process_once-fails msg s e fails in
        let ih = attempt-fails n msg (process_once handler msg s).1 (ground (arith, fails, h)) in
        ground (arith, fails, ih, same)
  ]

  attempt-seen :
      (n : ℕ) (msg : Message) (s : Store D)
      → elem msg.event_id s.processed ≡ true
      → attempt handler (suc n) msg s ≡ (true, s)
  unfolding attempt process_once
  attempt-seen n msg s seen = ground (arith, seen)

  module _ (decode : String → Option String) (group : String) where
    process_with_retry-keeps :
        (n : ℕ) (r : Record) (s : Store D) (b : Broker) (id : String)
        → elem id s.processed ≡ true
        → elem id (process_with_retry handler decode group n r s b).1.processed ≡ true
    unfolding process_with_retry
    process_with_retry-keeps n r s b id h = elim (Option-cases (decode r.value)) [
      | inl bad ↦ ground (arith, bad, h)
      | inr (event, read) ↦ elim (Bool-cases (str_eq event "")) [
        | inl unnamed ↦ ground (arith, read, unnamed, h)
        | inr named ↦
            ground
              (arith, read, named, attempt-keeps n (message handler decode group event r) s id h)
      ]
    ]

    consume-keeps :
        (n : ℕ) (rs : List Record) (s : Store D) (b : Broker) (id : String)
        → elem id s.processed ≡ true
        → elem id (consume handler decode group n rs s b).0.processed ≡ true
    unfolding consume
    consume-keeps n [] s b id h = h
    consume-keeps n (r ∷ rs) s b id h =
        consume-keeps n rs _ _ id (process_with_retry-keeps n r s b id h)

    -- An event takes effect once. The record was handled, and then any records were consumed, failed ones
    -- and dead letters among them: when the record is delivered again, the tables, the markers and the
    -- dead letters stay as they are.
    pub consume_once :
        (n m k : ℕ) (r : Record) (id : String) (rs : List Record) (s : Store D) (b b' : Broker)
        → decode r.value ≡ some id
        → id ≢ ""
        → (attempt handler n (message handler decode group id r) s).0 ≡ true
        → let s₁ =
            (consume handler decode group m rs
              (attempt handler n (message handler decode group id r) s).1
              b).0 in
          process_with_retry handler decode group (suc k) r s₁ b' ≡ (true, s₁, b')
    unfolding process_with_retry
    consume_once n m k r id rs s b b' read named fine =
        let msg = message handler decode group id r in
        let s₀ = (attempt handler n msg s).1 in
        let seen = consume-keeps m rs s₀ b id (attempt-marks n msg s fine) in
        let again = attempt-seen k msg (consume handler decode group m rs s₀ b).0 seen in
        ground (arith, read, named, again)

    -- A record whose event no attempt could handle, while the broker takes no dead letter: the offset is to
    -- be marked all the same, and the record is neither handled nor among the dead letters.
    pub process_with_retry_loses :
        (n : ℕ) (r : Record) (id : String) (s : Store D) (b : Broker)
        → decode r.value ≡ some id
        → (attempt handler n (message handler decode group id r) s).0 ≡ false
        → b.acks ≡ false
        → process_with_retry handler decode group n r s b ≡ (true, s, b)
    unfolding process_with_retry to_dlq
    process_with_retry_loses n r id s b read fails down =
        let same = attempt-fails n (message handler decode group id r) s fails in
        elim (Bool-cases (str_eq id "")) [
          | inl unnamed ↦ ground (arith, read, unnamed, down)
          | inr named ↦ ground (arith, read, named, fails, down, same)
        ]
