-- ===== src/Ledger/Books/Sums.antt =====
-- How the sums of the invariant follow the statements.
use bank_core.Prelude.{
  ◌≡◌, refl, inl, inr, arith, String, str_eq, ◌&&◌, if◌then◌else◌, List, [], ◌∷◌, none, some, All,
  Bool-cases, ◌≢◌,
}
use bank_core.Prelude.Int.{pos, ◌-ℤ◌, ◌≤ℤ◌, int_laws}
use bank_core.Ledger.Domain.{Hold, hold_active}
use bank_core.Ledger.Store.{find_row}
use bank_core.Ledger.Store.Lemmas.{HasUniqueIds, set_status}
use bank_core.Ledger.Books.Invariant.{held_for, IsHold}

-- A status is set on an id that no hold has: nothing changes.
set_status_absent :
    (id status : String) (hs : List Hold)
    → find_row (λ g. str_eq g.id id) hs ≡ none
    → set_status id status hs ≡ hs
set_status_absent id status [] e = refl
set_status_absent id status (h ∷ hs) e = ground (arith, set_status_absent id status hs)

-- An active hold that is set to another status no longer counts.
pub held_for-set_status :
    (a id status : String) (h : Hold) (hs : List Hold)
    → HasUniqueIds hs
    → find_row (λ g. str_eq g.id id) hs ≡ some h
    → h.status ≡ hold_active
    → status ≢ hold_active
    → held_for a (set_status id status hs)
      ≡ held_for a hs -ℤ (if str_eq a h.account_id then h.amount else pos 0)
held_for-set_status a id status h [] u e active other = absurd (ground arith)
held_for-set_status a id status h (g ∷ hs) u e active other = elim (Bool-cases (str_eq g.id id)) [
  | inl hit ↦
      let tail = set_status_absent id status hs (ground (arith, u.0)) in
      let same : (g ≡ h) = ground arith in rw (hit, tail, same) (grind (int_laws, active, other))
  | inr miss ↦
      let ih = held_for-set_status a id status h hs u.1 (ground arith) active other in
      rw (miss, ih) (omega int_laws)
]

pub held_for_nonneg : (a : String) (hs : List Hold) → All IsHold hs → pos 0 ≤ℤ held_for a hs
held_for_nonneg a [] ok = omega int_laws
held_for_nonneg a (h ∷ hs) ok =
    let ih = held_for_nonneg a hs ok.1 in
    let amount = ok.0.amount_pos in
    elim (Bool-cases (str_eq a h.account_id && str_eq h.status hold_active)) [
      | inl counts ↦ rw counts (omega int_laws)
      | inr free ↦ rw free (omega int_laws)
    ]

-- An active hold is part of what its account's holds reserve.
pub amount-le-held_for :
    (id : String) (h : Hold) (hs : List Hold)
    → All IsHold hs
    → find_row (λ g. str_eq g.id id) hs ≡ some h
    → h.status ≡ hold_active
    → h.amount ≤ℤ held_for h.account_id hs
amount-le-held_for id h [] ok e active = absurd (ground arith)
amount-le-held_for id h (g ∷ hs) ok e active = elim (Bool-cases (str_eq g.id id)) [
  | inl hit ↦
      let same : (g ≡ h) = ground arith in
      let rest = held_for_nonneg h.account_id hs ok.1 in rw same (grind (int_laws, active))
  | inr miss ↦
      let ih = amount-le-held_for id h hs ok.1 (ground arith) active in
      let amount = ok.0.amount_pos in
      elim (Bool-cases (str_eq h.account_id g.account_id && str_eq g.status hold_active)) [
        | inl counts ↦ rw counts (omega int_laws)
        | inr free ↦ rw free (omega int_laws)
      ]
]
