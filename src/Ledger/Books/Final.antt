-- ===== src/Ledger/Books/Final.antt =====
-- Proofs about what becomes of a hold that was captured or released, whatever the ledger is asked.
use bank_core.Prelude.{
  ℕ, ◌≡◌, ◌⊎◌, inl, inr, arith, String, str_eq, List, [], ◌∷◌, some, Option-cases, ◌∙◌,
}
use bank_core.Prelude.Int.{ℤ}
use bank_core.Prelude.Dict.{Dict}
use bank_core.Prelude.Results.{ok, Result-cases}
use bank_core.Ledger.Domain.{Account, Balance, Hold, Posting, hold_captured, hold_released}
use bank_core.Ledger.Store.{
  domain, not_found, ref_conflict, held_underflow, db_error, AccountRef, PostingSpec, EntryView, Db,
  find_row, update_balance, get_entry_ref,
}
use bank_core.Ledger.Store.Lemmas.{within_tx_keeps, >>=-eq-ok}
use bank_core.Ledger.Service.{
  Draws, resolve, post_new, capture_step, post_once_tx, post_transaction, write_balances,
  place_hold, release_hold_tx, release_hold_op, sweep, list_expired_holds,
}
use bank_core.Ledger.Books.Kept.{
  update_balance-holds, Stays, not_active, set-Stays, row-id, found-own, release-Stays,
  sweep_holds-Stays, place_hold-Stays,
}
use bank_core.Ledger.Books.Place.{tables_after}
use bank_core.Ledger.Books.Capture.{named_hold, capture_step-eq, capture_step-none}
use bank_core.Ledger.Books.Steps.{post_new-Steps}
use bank_core.Ledger.Books.Post.{replayed-same, post_transaction-tables}

-- A call of the ledger that writes holds.
pub data Call : Type 0 where
  posts : Draws → String → String → String → List PostingSpec → Call
  places : List String → AccountRef → ℤ → String → String → String → ℕ → Call
  releases : String → Call
  sweeps : ℕ → Call

abbrev pub serve : Call → Db → Db
serve (posts draws ref_type ref_id hold_id specs) db =
    (post_transaction draws ref_type ref_id hold_id specs db).1
serve (places ids ref amount currency ref_type ref_id at) db =
    tables_after (place_hold ids ref amount currency ref_type ref_id at db) db
serve (releases id) db = (release_hold_op id db).1
serve (sweeps now) db = sweep now db

abbrev pub serve_all : List Call → Db → Db
serve_all [] db = db
serve_all (c ∷ cs) db = serve_all cs (serve c db)

write_balances-holds :
    (ids : List String) (out : Dict Balance) (db db' : Db)
    → write_balances ids out db ≡ ok (tt, db')
    → db'.holds ≡ db.holds
unfolding write_balances
write_balances-holds [] out db db' e = ground arith
write_balances-holds (id ∷ ids) out db db' e =
    let (_, db₁, wrote, rest) = >>=-eq-ok (update_balance _) _ db e in
    write_balances-holds ids out db₁ db' rest ∙ update_balance-holds _ db db₁ wrote

holds-through :
    (captured entered posted wrote db' : Db)
    → entered ≡ record captured { entries = entered.entries; entry_refs = entered.entry_refs }
    → posted ≡ record entered { postings = posted.postings }
    → wrote.holds ≡ posted.holds
    → db' ≡ record wrote { outbox = db'.outbox }
    → db'.holds ≡ captured.holds
holds-through captured entered posted wrote db' h₁ h₂ h₃ h₄ = ground arith

module _ (h : Hold) (over : (h.status ≡ hold_captured) ⊎ (h.status ≡ hold_released)) where
  capture-Stays :
      (ref_type ref_id hold_id : String) (delta adj : Dict ℤ) (db db' : Db)
      → Stays h over db
      → capture_step ref_type ref_id hold_id delta db ≡ ok (adj, db')
      → Stays h over db'
  capture-Stays ref_type ref_id hold_id delta adj db db' stays e =
      elim (Option-cases (named_hold hold_id db)) [
        | inl unnamed ↦
            rw ((capture_step-none ref_type ref_id hold_id delta adj db db' unnamed e).1) stays
        | inr (g, named) ↦
            let (active, _, tables) =
              capture_step-eq ref_type ref_id hold_id delta adj db db' g named e in
            let found : (find_row (λ r. str_eq r.id hold_id) db.holds ≡ some g) =
              ground (arith, named) in
            let own = found-own h over hold_id db.holds g found in
            set-Stays h over g.id hold_captured db db'
              (λ same. absurd (
                not_active h over (
                  ground (
                    arith,
                    active,
                    row-id h over hold_id g db stays found (ground (arith, own, same)),
                  ))))
              (ground (arith, tables)) stays
      ]

  post_new-Stays :
      (draws : Draws) (ref_type ref_id hold_id : String) (accounts : Dict Account)
      (ps : List Posting) (db db' : Db) (view : EntryView)
      → Stays h over db
      → post_new draws ref_type ref_id hold_id accounts ps db ≡ ok (view, db')
      → Stays h over db'
  post_new-Stays draws ref_type ref_id hold_id accounts ps db db' view stays e =
      let s = post_new-Steps draws ref_type ref_id hold_id accounts ps db db' view e in
      let after =
        capture-Stays ref_type ref_id hold_id s.delta s.adj db s.captured stays s.capture in
      let wrote = write_balances-holds _ s.balances s.posted s.wrote s.writing in
      let same : (db'.holds ≡ s.captured.holds) =
        holds-through s.captured s.entered s.posted s.wrote db' s.entry_tables s.legs.tables wrote
          s.final_tables in
      rw same after

  post-Stays :
      (draws : Draws) (ref_type ref_id hold_id : String) (specs : List PostingSpec) (db db' : Db)
      (view : EntryView)
      → Stays h over db
      → post_once_tx draws ref_type ref_id hold_id specs db ≡ ok (view, db')
      → Stays h over db'
  unfolding post_once_tx
  post-Stays draws ref_type ref_id hold_id specs db db' view stays e =
      elim (Result-cases (resolve specs [] db)) [
        | inr (x, unknown) ↦ absurd (ground arith)
        | inl ((accounts, ps), resolved) ↦ elim (Result-cases (get_entry_ref ref_type ref_id db)) [
          | inl ((entry_id, at), known) ↦
              let same : (db ≡ db') =
                replayed-same draws ref_type ref_id hold_id specs db db' view accounts ps entry_id
                  at resolved known e in
              rw (← same) stays
          | inr (not_found, new) ↦
              post_new-Stays draws ref_type ref_id hold_id accounts ps db db' view stays
                (ground arith)
          | inr (domain x, failed) ↦ absurd (ground arith)
          | inr (ref_conflict, failed) ↦ absurd (ground arith)
          | inr (held_underflow, failed) ↦ absurd (ground arith)
          | inr (db_error, failed) ↦ absurd (ground arith)
        ]
      ]

  serve-Stays : (c : Call) (db : Db) → Stays h over db → Stays h over (serve c db)
  unfolding release_hold_op sweep
  serve-Stays (posts draws ref_type ref_id hold_id specs) db stays =
      elim (post_transaction-tables draws ref_type ref_id hold_id specs db) [
        | inl kept ↦ rw kept stays
        | inr through ↦ rw through (
            within_tx_keeps (Stays h over) (post_once_tx draws ref_type ref_id hold_id specs) db
              stays
              (λ view db' done.
                post-Stays draws ref_type ref_id hold_id specs db db' view stays done))
      ]
  serve-Stays (places ids ref amount currency ref_type ref_id at) db stays =
      place_hold-Stays h over ids ref amount currency ref_type ref_id at db stays
  serve-Stays (releases id) db stays =
      within_tx_keeps (Stays h over) (release_hold_tx id) db stays
        (λ out db' done. release-Stays h over id db db' out stays done)
  serve-Stays (sweeps now) db stays =
      sweep_holds-Stays h over (list_expired_holds now 100 db) db stays

-- A hold that is captured or released is never changed again: whatever posts, holds, releases and
-- sweeps the ledger is asked for, in whatever order, its row stays as it is.
pub hold_final :
    (h : Hold) (calls : List Call) (db : Db)
    → (h.status ≡ hold_captured) ⊎ (h.status ≡ hold_released)
    → find_row (λ g. str_eq g.id h.id) db.holds ≡ some h
    → find_row (λ g. str_eq g.id h.id) (serve_all calls db).holds ≡ some h
hold_final h [] db over stays = stays
hold_final h (c ∷ calls) db over stays =
    hold_final h calls (serve c db) over (serve-Stays h over c db stays)
