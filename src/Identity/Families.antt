-- ===== src/Identity/Families.antt =====
-- Proofs about the session families of services/identity/internal/app/service.go: how many live
-- sessions a family has.
use bank_core.Prelude.{
  ℕ, ◌+◌, ◌≤◌, ◌≡◌, refl, arith, inl, inr, String, str_eq, true, List, [], ◌∷◌, some, All,
  Bool-cases,
}
use bank_core.Ledger.Store.{update_rows}
use bank_core.Identity.Tables.{SessionRow, IdentityDb, live_id, live_in, count_rows}

-- The live sessions of a family.
abbrev pub live_count : String → IdentityDb → ℕ
live_count family db = count_rows (live_in family) db.sessions

abbrev pub revoked : ℕ → SessionRow → SessionRow
revoked now s = record s { revoked_at = some now }

abbrev pub rotated : ℕ → String → SessionRow → SessionRow
rotated now to s = record s { revoked_at = some now; rotated_to = some to }

pub revoked_count :
    (family other : String) (now : ℕ) (rows : List SessionRow)
    → count_rows (live_in family) (update_rows (live_in other) (revoked now) rows)
      ≤ count_rows (live_in family) rows
revoked_count family other now [] = omega arith
revoked_count family other now (s ∷ ss) =
    let ih = revoked_count family other now ss in
    elim (Bool-cases (live_in other s)) [
      | inl hit ↦ ground (arith, ih, hit)
      | inr miss ↦ ground (arith, ih, miss)
    ]

pub revoked_none :
    (family : String) (now : ℕ) (rows : List SessionRow)
    → count_rows (live_in family) (update_rows (live_in family) (revoked now) rows) ≡ 0
revoked_none family now [] = refl
revoked_none family now (s ∷ ss) =
    let ih = revoked_none family now ss in
    elim (Bool-cases (live_in family s)) [
      | inl hit ↦ ground (arith, ih, hit)
      | inr miss ↦ ground (arith, ih, miss)
    ]

pub rotated_count :
    (family id to : String) (now : ℕ) (rows : List SessionRow)
    → count_rows (live_in family) (update_rows (live_id id) (rotated now to) rows)
      ≤ count_rows (live_in family) rows
rotated_count family id to now [] = omega arith
rotated_count family id to now (s ∷ ss) =
    let ih = rotated_count family id to now ss in
    elim (Bool-cases (live_id id s)) [
      | inl hit ↦ ground (arith, ih, hit)
      | inr miss ↦ ground (arith, ih, miss)
    ]

-- Each row with an id has this family.
abbrev pub IsInFamily : String → String → SessionRow → Type 0
IsInFamily id family s = str_eq s.id id ≡ true → str_eq s.family_id family ≡ true

pub rotated_fewer :
    (family id to : String) (now : ℕ) (rows : List SessionRow)
    → All (IsInFamily id family) rows
    → 1 ≤ count_rows (live_id id) rows
    → count_rows (live_in family) (update_rows (live_id id) (rotated now to) rows) + 1
      ≤ count_rows (live_in family) rows
rotated_fewer family id to now [] all some_row = absurd (ground arith)
rotated_fewer family id to now (s ∷ ss) (at, all) some_row = elim (Bool-cases (live_id id s)) [
  | inl hit ↦ ground (arith, hit, at, rotated_count family id to now ss)
  | inr miss ↦ ground (arith, miss, rotated_fewer family id to now ss all (ground arith))
]
