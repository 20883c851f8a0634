-- ===== src/Ledger/Books/Payload.antt =====
-- Proofs about samePayload of services/ledger/internal/app/service.go.
use bank_core.Prelude.{
  ◌≡◌, refl, inl, inr, arith, true, false, if◌then◌else◌, List, [], ◌∷◌, Bool-cases,
}
use bank_core.Prelude.Int.{ℤ, pos, ◌+ℤ◌, ◌-ℤ◌, int_laws}
use bank_core.Ledger.Domain.{Posting}
use bank_core.Ledger.Store.{PostingView, EntryView}
use bank_core.Ledger.Service.{
  Leg, leg_eq, Counts, bump, view_leg, posting_leg, count_up, count_down, none_left, same_payload,
}

abbrev get_count : Leg → Counts → ℤ
get_count l [] = pos 0
get_count l ((k, n) ∷ cs) = if leg_eq l k then n else get_count l cs

-- How many of the legs are this one.
abbrev pub times_viewed : Leg → List PostingView → ℤ
times_viewed l [] = pos 0
times_viewed l (p ∷ ps) = (if leg_eq l (view_leg p) then pos 1 else pos 0) +ℤ times_viewed l ps

abbrev pub times_requested : Leg → List Posting → ℤ
times_requested l [] = pos 0
times_requested l (p ∷ ps) =
    (if leg_eq l (posting_leg p) then pos 1 else pos 0) +ℤ times_requested l ps

leg_eq_same : (a b : Leg) → leg_eq a b ≡ true → a ≡ b
leg_eq_same a b h = ground arith

leg_eq_refl : (a : Leg) → leg_eq a a ≡ true
leg_eq_refl a = ground arith

-- A leg that is the one of two different legs is not the other.
leg_eq_other : (l k j : Leg) → leg_eq k j ≡ false → leg_eq l j ≡ true → leg_eq l k ≡ false
leg_eq_other l k j apart same = elim (Bool-cases (leg_eq l k)) [
  | inr other ↦ other
  | inl both ↦
      absurd (ground (arith, leg_eq_same l k both, leg_eq_same l j same, leg_eq_refl j, apart))
]

get_count-bump :
    (l k : Leg) (by : ℤ) (cs : Counts)
    → get_count l (bump k by cs) ≡ get_count l cs +ℤ (if leg_eq l k then by else pos 0)
get_count-bump l k by [] = elim (Bool-cases (leg_eq l k)) [
  | inl same ↦ rw same (omega int_laws)
  | inr other ↦ rw other (omega int_laws)
]
get_count-bump l k by ((j, n) ∷ cs) =
    let ih = get_count-bump l k by cs in
    elim (Bool-cases (leg_eq k j)) [
      | inl here ↦ elim (Bool-cases (leg_eq l j)) [
        | inl same ↦
            let too : (leg_eq l k ≡ true) = rw (leg_eq_same k j here) same in
            rw (here, same, too) refl
        | inr other ↦
            let too : (leg_eq l k ≡ false) = rw (leg_eq_same k j here) other in
            rw (here, other, too) (omega int_laws)
      ]
      | inr later ↦ elim (Bool-cases (leg_eq l j)) [
        | inl same ↦ rw (later, same, leg_eq_other l k j later same) (omega int_laws)
        | inr other ↦ rw (later, other) ih
      ]
    ]

get_count-count_up :
    (l : Leg) (ps : List PostingView) (cs : Counts)
    → get_count l (count_up ps cs) ≡ get_count l cs +ℤ times_viewed l ps
unfolding count_up
get_count-count_up l [] cs = omega int_laws
get_count-count_up l (p ∷ ps) cs =
    let ih = get_count-count_up l ps (bump (view_leg p) (pos 1) cs) in
    grind (int_laws, ih, get_count-bump l (view_leg p) (pos 1) cs)

get_count-count_down :
    (l : Leg) (ps : List Posting) (cs : Counts)
    → get_count l (count_down ps cs) ≡ get_count l cs -ℤ times_requested l ps
unfolding count_down
get_count-count_down l [] cs = omega int_laws
get_count-count_down l (p ∷ ps) cs =
    let ih = get_count-count_down l ps (bump (posting_leg p) (pos 0 -ℤ pos 1) cs) in
    let step = get_count-bump l (posting_leg p) (pos 0 -ℤ pos 1) cs in grind (int_laws, ih, step)

none_left-get_count : (cs : Counts) (l : Leg) → none_left cs ≡ true → get_count l cs ≡ pos 0
none_left-get_count [] l h = refl
none_left-get_count ((k, n) ∷ cs) l h = ground (arith, none_left-get_count cs l)

-- A stored entry and a request that samePayload finds the same have each leg equally often.
pub same_payload_counts :
    (existing : EntryView) (requested : List Posting) (l : Leg)
    → same_payload existing requested ≡ true
    → times_viewed l existing.postings ≡ times_requested l requested
unfolding same_payload
same_payload_counts existing requested l h =
    let left : (none_left (count_down requested (count_up existing.postings [])) ≡ true) =
      ground arith in
    let zero' = none_left-get_count (count_down requested (count_up existing.postings [])) l left in
    let up = get_count-count_up l existing.postings [] in
    let down = get_count-count_down l requested (count_up existing.postings []) in
    grind (int_laws, zero', up, down)
