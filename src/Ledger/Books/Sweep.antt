-- ===== src/Ledger/Books/Sweep.antt =====
-- Proofs about sweep of services/ledger/internal/app/sweeper.go: which holds it releases.
use bank_core.Prelude.{
  ℕ, ◌≤◌, ◌≡◌, refl, inl, inr, arith, String, str_eq, str_eq_iff, true, false, List, [], ◌∷◌, some,
  All, map, length, Option-cases, string_discrete,
}
use bank_core.Prelude.Int.{pos, int_laws, ltb_ℤ}
use bank_core.Prelude.Int64.{sub64}
use bank_core.Prelude.Dict.{lookup}
use bank_core.Prelude.Results.{ok}
use bank_core.Ledger.Domain.{Balance, Hold, hold_active, hold_captured, hold_released, release_hold}
use bank_core.Ledger.Store.{
  Db, update, find_row, lock_balance, update_balance, lock_hold_by_id, set_hold_status, within_tx,
}
use bank_core.Ledger.Store.Lemmas.{set_status, find_row-All}
use bank_core.Ledger.Service.{
  settle_release, release_hold_tx, release_hold_op, sweep_holds, sweep, list_expired_holds, expired,
  by_expiry, limited,
}
use bank_core.Ledger.Books.Invariant.{IsConsistent, IsHold}
use bank_core.Ledger.Books.Sums.{amount-le-held_for}
use bank_core.Ledger.Books.Listing.{
  released, has, IsDistinct, HasUniqueIds-IsDistinct, release_one, map-set_status,
  map-release_nothing, Listed, swept, by_expiry-IsDistinct, expired-IsDistinct, by_expiry-All,
  rows-found, expired-Listed, release_due, has-expired-due, has-due, length-by_expiry, limited_all,
}
use bank_core.Ledger.Books.Holds.{release_hold_op-IsConsistent, sweep-IsConsistent, sub64-nonneg}

-- In books that are in order the balance row of an active hold is there, and its held money covers
-- the hold.
held_covers :
    (id : String) (db : Db) (h : Hold)
    → IsConsistent db
    → find_row (λ g. str_eq g.id id) db.holds ≡ some h
    → h.status ≡ hold_active
    → (b : Balance) × (lookup h.account_id db.balances ≡ some b)
      × (ltb_ℤ (sub64 b.held h.amount) (pos 0) ≡ false)
held_covers id db h c found active =
    let hold = (find_row-All IsHold (λ g. str_eq g.id id) db.holds h c.holds_ok found).0 in
    let part = amount-le-held_for id h db.holds c.holds_ok found active in
    elim (Option-cases (lookup h.account_id db.balances)) [
      | inl missing ↦
          let none_held = (c.unused h.account_id missing).1 in
          absurd (grind (int_laws, hold.amount_pos, part, none_held))
      | inr (b, there) ↦
          let before = c.balanced h.account_id b there in
          let (exact, range) =
            sub64-nonneg b.held h.amount before.row.held_range hold.amount_range
              before.row.held_nonneg (omega (arith, hold.amount_pos)) in
          (b, there, grind (int_laws, exact, part, before.held_sum))
    ]

not_released : str_eq hold_active hold_released ≡ false
unfolding string_discrete
not_released = refl

not_captured : str_eq hold_active hold_captured ≡ false
unfolding string_discrete
not_captured = refl

-- So ReleaseHold of an active hold is not refused.
release_active :
    (db : Db) (h : Hold)
    → IsConsistent db
    → find_row (λ g. str_eq g.id h.id) db.holds ≡ some h
    → h.status ≡ hold_active
    → (release_hold_op h.id db).1.holds ≡ set_status h.id hold_released db.holds
unfolding release_hold_op release_hold_tx lock_hold_by_id within_tx
release_active db h c found active =
    let (b, there, fits) = held_covers h.id db h c found active in
    let freed : (release_hold h ≡ ok (released h, true)) =
      unfold release_hold in rw (active, not_released, not_captured) refl in
    let settled : (settle_release h (released h) db
        ≡ ok (
          released h,
          record db {
            balances = update b.account_id (record b { held = sub64 b.held h.amount }) db.balances;
            holds = set_status h.id hold_released db.holds;
          },
        )) =
      unfold settle_release lock_balance update_balance set_hold_status in
      ground (arith, there, fits) in
    ground (arith, found, freed, settled)

-- A status that is set on one id leaves the row of another.
pub find-other :
    (x id status : String) (rows : List Hold)
    → str_eq x id ≡ false
    → find_row (λ r. str_eq r.id x) (set_status id status rows) ≡ find_row (λ r. str_eq r.id x) rows
find-other x id status [] other = refl
find-other x id status (r ∷ rows) other =
    let ih = find-other x id status rows other in
    ground (arith, ih, str_eq_iff r.id x, str_eq_iff r.id id, str_eq_iff x id)

Listed-set_status :
    (id : String) (rows gs : List Hold)
    → has id gs ≡ false
    → All (Listed rows) gs
    → All (Listed (set_status id hold_released rows)) gs
Listed-set_status id rows [] other l = tt
Listed-set_status id rows (g ∷ gs) other l =
    let rest = Listed-set_status id rows gs (ground arith) l.1 in
    ((ground (arith, find-other g.id id hold_released rows (ground arith), l.0), l.0.1), rest)

-- The loop releases the active holds it is given, each once, and no other row changes.
sweep_holds-releases :
    (gs : List Hold) (db : Db)
    → IsConsistent db
    → IsDistinct gs
    → All (Listed db.holds) gs
    → (sweep_holds gs db).holds ≡ map (release_one gs) db.holds
unfolding sweep_holds
sweep_holds-releases [] db c d l = ground (arith, map-release_nothing db.holds)
sweep_holds-releases (g ∷ gs) db c d l =
    let once = release_active db g c l.0.0 l.0.1 in
    let listed : All (Listed (release_hold_op g.id db).1.holds) gs =
      rw once (Listed-set_status g.id db.holds gs d.0 l.1) in
    let ih =
      sweep_holds-releases gs (release_hold_op g.id db).1 (release_hold_op-IsConsistent g.id db c)
        d.1 listed in
    rw ih (rw once (map-set_status gs g db.holds))

-- One sweep of books that are in order, with at most the hundred due holds that a sweep lists, releases
-- every active hold whose expiry is before now, changes no other hold, and leaves the books in order.
pub sweep_exact :
    (now : ℕ) (db : Db)
    → IsConsistent db
    → length (expired now db.holds) ≤ 100
    → ((sweep now db).holds ≡ map (swept now) db.holds) × IsConsistent (sweep now db)
unfolding sweep list_expired_holds
sweep_exact now db c few =
    let due = by_expiry (expired now db.holds) in
    let distinct = HasUniqueIds-IsDistinct db.holds c.holds_unique in
    let whole : (limited 100 due ≡ due) =
      limited_all 100 due (ground (arith, length-by_expiry (expired now db.holds))) in
    let run =
      sweep_holds-releases due db c
        (by_expiry-IsDistinct (expired now db.holds) (expired-IsDistinct now db.holds distinct))
        (by_expiry-All (Listed db.holds) (expired now db.holds)
          (expired-Listed now db.holds db.holds (rows-found db.holds distinct))) in
    (
      rw whole (
          rw run (
            release_due now due db.holds distinct (
              has-due now (expired now db.holds) db.holds
                (has-expired-due now db.holds distinct)))),
      sweep-IsConsistent now db c,
    )
