-- ===== src/Delivery/Relay.antt =====
-- Proofs about the relay of pkg/outbox/relay.go.
use bank_core.Prelude.{
  ℕ, zero, suc, ◌+◌, ◌≤◌, ◌≡◌, refl, arith, ◌⊎◌, inl, inr, String, str_eq, str_eq_iff, Bool, true,
  false, ◌&&◌, ◌||◌, ltb, if◌then◌else◌, List, [], ◌∷◌, some, map, take, length, Bool-cases,
}
use bank_core.Prelude.Sort.{elem}
use bank_core.Delivery.Consumer.{Record}
use bank_core.Delivery.Outbox.{
  OutboxRow, is_unsent, comes_first, insert_row, unsent, relay_batch, to_record, ids_of, mark_sent,
  relay_rows, relay_once, relay_loop,
}

-- The rows that wait.
abbrev pub waiting : List OutboxRow → ℕ
waiting [] = 0
waiting (r ∷ rs) = (if is_unsent r then 1 else 0) + waiting rs

-- A row that waits and has its id among these.
abbrev hits : List String → List OutboxRow → ℕ
hits ids [] = 0
hits ids (r ∷ rs) = (if is_unsent r && elem r.id ids then 1 else 0) + hits ids rs

waiting-mark_sent :
    (ids : List String) (now : ℕ) (rows : List OutboxRow)
    → waiting (mark_sent ids now rows) + hits ids rows ≡ waiting rows
waiting-mark_sent ids now [] = refl
waiting-mark_sent ids now (r ∷ rs) =
    let ih = waiting-mark_sent ids now rs in
    elim (Bool-cases (elem r.id ids)) [
      | inl named ↦ ground (arith, named, ih)
      | inr other ↦ ground (arith, other, ih)
    ]

elem-insert_row :
    (id : String) (r : OutboxRow) (rs : List OutboxRow)
    → elem id (ids_of (insert_row r rs)) ≡ (str_eq id r.id || elem id (ids_of rs))
elem-insert_row id r [] = refl
elem-insert_row id r (s ∷ ss) =
    let ih = elem-insert_row id r ss in
    elim (Bool-cases (comes_first r s)) [
      | inl before ↦ ground (arith, before)
      | inr after ↦ ground (arith, after, ih)
    ]

-- With the ids of all that wait, each waiting row is hit.
hits-all :
    (ids : List String) (rows : List OutboxRow)
    → ((id : String) → elem id (ids_of (unsent rows)) ≡ true → elem id ids ≡ true)
    → hits ids rows ≡ waiting rows
hits-all ids [] all = refl
hits-all ids (r ∷ rs) all = elim (Bool-cases (is_unsent r)) [
  | inr sent ↦
      let ih = hits-all ids rs (λ id e. all id (ground (arith, sent, e))) in
      ground (arith, sent, ih)
  | inl waits ↦
      let here = all r.id (
        ground (arith, waits, elem-insert_row r.id r (unsent rs), (str_eq_iff r.id r.id).1 refl)) in
      let ih =
        hits-all ids rs
          (λ id e. all id (ground (arith, waits, elem-insert_row id r (unsent rs), e))) in
      ground (arith, waits, here, ih)
]

-- The id of a row that waits, among these, hits a row.
hits-some :
    (ids : List String) (id : String) (rows : List OutboxRow)
    → elem id (ids_of (unsent rows)) ≡ true
    → elem id ids ≡ true
    → 1 ≤ hits ids rows
hits-some ids id [] waits named = absurd (ground arith)
hits-some ids id (r ∷ rs) waits named = elim (Bool-cases (is_unsent r)) [
  | inr sent ↦ ground (arith, sent, hits-some ids id rs (ground (arith, sent, waits)) named)
  | inl here ↦ elim (Bool-cases (str_eq id r.id)) [
    | inl same ↦ ground (arith, here, named, (str_eq_iff id r.id).0 same)
    | inr other ↦
        let ih =
          hits-some ids id rs (ground (arith, here, waits, other, elem-insert_row id r (unsent rs)))
            named in
        ground (arith, ih)
  ]
]

hits-nothing : (rows : List OutboxRow) → hits [] rows ≡ 0
hits-nothing [] = refl
hits-nothing (r ∷ rs) = ground (arith, hits-nothing rs)

-- A batch that is not full is all that waits.
take_all :
    (n : ℕ) (rows : List OutboxRow) → ltb (length (take n rows)) n ≡ true → take n rows ≡ rows
take_all zero rows h = absurd (ground arith)
take_all (suc n) [] h = refl
take_all (suc n) (r ∷ rs) h = ground (arith, take_all n rs (ground arith))

take-head :
    (n : ℕ) (rows batch : List OutboxRow) (r : OutboxRow)
    → take n rows ≡ r ∷ batch
    → elem r.id (ids_of rows) ≡ true
take-head zero rows batch r h = absurd (ground arith)
take-head (suc n) [] batch r h = absurd (ground arith)
take-head (suc n) (s ∷ rows) batch r h =
    let same : (s ≡ r) = ground arith in ground (arith, same, (str_eq_iff r.id r.id).1 refl)

List-cases :
    (rows : List OutboxRow)
    → (rows ≡ []) ⊎ ((r : OutboxRow) × (rs : List OutboxRow) × (rows ≡ r ∷ rs))
List-cases [] = inl refl
List-cases (r ∷ rs) = inr (r, rs, refl)

module _ {B : Type 0} (produce : List Record → B → Bool × B)
    (acks : (records : List Record) (b : B) → (produce records b).0 ≡ true) where
  -- One batch: a full one leaves fewer rows waiting, any other leaves none.
  relay_once_progress :
      (now : ℕ) (rows : List OutboxRow) (b : B)
      → (count : ℕ) × ((relay_once produce now rows b).0 ≡ some count)
        × (((ltb count relay_batch ≡ true) × (waiting (relay_once produce now rows b).1 ≡ 0))
            ⊎ ((ltb count relay_batch ≡ false)
                × (waiting (relay_once produce now rows b).1 + 1 ≤ waiting rows)))
  unfolding relay_rows
  relay_once_progress now rows b = elim (List-cases (take relay_batch (unsent rows))) [
    | inl empty ↦
        let all = take_all relay_batch (unsent rows) (ground (arith, empty)) in
        let none_waits = hits-all [] rows (λ id e. ground (arith, all, empty, e)) in
        (0, ground (arith, empty), inl (refl, ground (arith, empty, none_waits, hits-nothing rows)))
    | inr (r, rs, batch) ↦
        let marked = waiting-mark_sent (ids_of (r ∷ rs)) now rows in
        let acked = acks (map to_record (r ∷ rs)) b in
        let rows' : ((relay_once produce now rows b).1 ≡ mark_sent (ids_of (r ∷ rs)) now rows) =
          ground (arith, batch, acked) in
        (
          length (r ∷ rs),
          ground (arith, batch, acked),
          elim (Bool-cases (ltb (length (r ∷ rs)) relay_batch)) [
            | inl short ↦
                let all = take_all relay_batch (unsent rows) (ground (arith, batch, short)) in
                let everything =
                  hits-all (ids_of (r ∷ rs)) rows (λ id e. ground (arith, all, batch, e)) in
                inl (short, ground (arith, rows', marked, everything))
            | inr full ↦
                let first = take-head relay_batch (unsent rows) rs r batch in
                let some_hit =
                  hits-some (ids_of (r ∷ rs)) r.id rows first
                    (ground (arith, (str_eq_iff r.id r.id).1 refl)) in
                inr (full, ground (arith, rows', marked, some_hit))
          ],
        )
  ]

  -- With a broker that acknowledges every produce, and more rounds than rows that wait, the relay's loop
  -- leaves no row waiting.
  pub relay_loop_empties :
      (rounds now : ℕ) (rows : List OutboxRow) (b : B)
      → waiting rows + 1 ≤ rounds
      → waiting (relay_loop produce rounds now rows b).0 ≡ 0
  unfolding relay_loop
  relay_loop_empties zero now rows b enough = absurd (ground arith)
  relay_loop_empties (suc rounds) now rows b enough =
      let (count, relayed, outcome) = relay_once_progress now rows b in
      elim outcome [
        | inl (short, empty) ↦ ground (arith, relayed, short, empty)
        | inr (full, fewer) ↦
            let out = relay_once produce now rows b in
            let ih = relay_loop_empties rounds now out.1 out.2 (ground (arith, fewer, enough)) in
            ground (arith, relayed, full, ih)
      ]
