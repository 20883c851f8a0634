-- ===== src/Ledger/Books/Once.antt =====
-- Proofs about repeated calls of PostTransaction with one reference.
use bank_core.Prelude.{ℕ, ◌≡◌, refl, inl, inr, arith, String, List, [], ◌∷◌, sym, ◌∙◌}
use bank_core.Prelude.Dict.{Dict}
use bank_core.Prelude.Results.{ok, Result-cases}
use bank_core.Ledger.Domain.{Account, Balance, Posting}
use bank_core.Ledger.Store.{
  domain, not_found, ref_conflict, held_underflow, db_error, Db, EntryRef, EntryView, PostingSpec,
  get_entry_ref, update_balance, within_tx,
}
use bank_core.Ledger.Store.Lemmas.{within_tx_keeps, >>=-eq-ok}
use bank_core.Ledger.Service.{
  Draws, resolve, post_new, post_once_tx, post_transaction, replay_by_reference, write_balances,
}
use bank_core.Ledger.Books.Steps.{post_new-Steps}
use bank_core.Ledger.Books.Post.{replayed-same, post_transaction-tables}

-- An entry with this reference is in the books.
abbrev pub IsRecorded : String → String → Db → Type 0
IsRecorded ref_type ref_id db =
    (entry_id : String) × (at : ℕ) × (get_entry_ref ref_type ref_id db ≡ ok (entry_id, at))

update_balance-refs :
    (b : Balance) (db db' : Db)
    → update_balance b db ≡ ok (tt, db')
    → db'.entry_refs ≡ db.entry_refs
unfolding update_balance
update_balance-refs b db db' e = ground arith

write_balances-refs :
    (ids : List String) (out : Dict Balance) (db db' : Db)
    → write_balances ids out db ≡ ok (tt, db')
    → db'.entry_refs ≡ db.entry_refs
unfolding write_balances
write_balances-refs [] out db db' e = ground arith
write_balances-refs (id ∷ ids) out db db' e =
    let (_, db₁, wrote, rest) = >>=-eq-ok (update_balance _) _ db e in
    write_balances-refs ids out db₁ db' rest ∙ update_balance-refs _ db db₁ wrote

first_ref-IsRecorded :
    (ref_type ref_id : String) (r : EntryRef) (rs : List EntryRef) (db : Db)
    → db.entry_refs ≡ r ∷ rs
    → r.reference_type ≡ ref_type
    → r.reference_id ≡ ref_id
    → IsRecorded ref_type ref_id db
unfolding get_entry_ref
first_ref-IsRecorded ref_type ref_id r rs db refs type id =
    (r.entry_id, r.occurred_at, ground arith)

refs-through :
    (entered posted wrote db' : Db)
    → posted ≡ record entered { postings = posted.postings }
    → wrote.entry_refs ≡ posted.entry_refs
    → db' ≡ record wrote { outbox = db'.outbox }
    → db'.entry_refs ≡ entered.entry_refs
refs-through entered posted wrote db' h₁ h₂ h₃ = ground arith

post_new-IsRecorded :
    (draws : Draws) (ref_type ref_id hold_id : String) (accounts : Dict Account) (ps : List Posting)
    (db db' : Db) (view : EntryView)
    → post_new draws ref_type ref_id hold_id accounts ps db ≡ ok (view, db')
    → IsRecorded ref_type ref_id db'
post_new-IsRecorded draws ref_type ref_id hold_id accounts ps db db' view e =
    let s = post_new-Steps draws ref_type ref_id hold_id accounts ps db db' view e in
    let (r, type, id, refs) = s.entered_ref in
    let kept =
      refs-through s.entered s.posted s.wrote db' s.legs.tables
        (write_balances-refs _ s.balances s.posted s.wrote s.writing) s.final_tables in
    first_ref-IsRecorded ref_type ref_id r s.captured.entry_refs db' (kept ∙ refs) type id

post_once_tx-IsRecorded :
    (draws : Draws) (ref_type ref_id hold_id : String) (specs : List PostingSpec) (db db' : Db)
    (view : EntryView)
    → post_once_tx draws ref_type ref_id hold_id specs db ≡ ok (view, db')
    → IsRecorded ref_type ref_id db'
unfolding post_once_tx
post_once_tx-IsRecorded draws ref_type ref_id hold_id specs db db' view e =
    elim (Result-cases (resolve specs [] db)) [
      | inr (x, unknown) ↦ absurd (ground arith)
      | inl ((accounts, ps), resolved) ↦ elim (Result-cases (get_entry_ref ref_type ref_id db)) [
        | inl ((entry_id, at), known) ↦
            let same : (db ≡ db') =
              replayed-same draws ref_type ref_id hold_id specs db db' view accounts ps entry_id at
                resolved known e in
            rw (← same) (entry_id, at, known)
        | inr (not_found, new) ↦
            post_new-IsRecorded draws ref_type ref_id hold_id accounts ps db db' view (ground arith)
        | inr (domain x, failed) ↦ absurd (ground arith)
        | inr (ref_conflict, failed) ↦ absurd (ground arith)
        | inr (held_underflow, failed) ↦ absurd (ground arith)
        | inr (db_error, failed) ↦ absurd (ground arith)
      ]
    ]

replay_by_reference-IsRecorded :
    (ref_type ref_id : String) (specs : List PostingSpec) (db : Db) (view : EntryView)
    → replay_by_reference ref_type ref_id specs db ≡ ok view
    → IsRecorded ref_type ref_id db
unfolding replay_by_reference
replay_by_reference-IsRecorded ref_type ref_id specs db view e =
    elim (Result-cases (get_entry_ref ref_type ref_id db)) [
      | inl ((entry_id, at), known) ↦ (entry_id, at, known)
      | inr (x, unknown) ↦ absurd (ground arith)
    ]

pub post_transaction-IsRecorded :
    (draws : Draws) (ref_type ref_id hold_id : String) (specs : List PostingSpec) (db db' : Db)
    (view : EntryView)
    → post_transaction draws ref_type ref_id hold_id specs db ≡ (ok view, db')
    → IsRecorded ref_type ref_id db'
unfolding post_transaction within_tx
post_transaction-IsRecorded draws ref_type ref_id hold_id specs db db' view e =
    elim (Result-cases (post_once_tx draws ref_type ref_id hold_id specs db)) [
      | inl ((v, d), done) ↦
          post_once_tx-IsRecorded draws ref_type ref_id hold_id specs db db' v (ground arith)
      | inr (ref_conflict, raced) ↦
          replay_by_reference-IsRecorded ref_type ref_id specs db' view (ground arith)
      | inr (domain x, failed) ↦ absurd (ground arith)
      | inr (not_found, failed) ↦ absurd (ground arith)
      | inr (held_underflow, failed) ↦ absurd (ground arith)
      | inr (db_error, failed) ↦ absurd (ground arith)
    ]

recorded-keeps :
    (draws : Draws) (ref_type ref_id hold_id : String) (specs : List PostingSpec) (db : Db)
    → IsRecorded ref_type ref_id db
    → (post_transaction draws ref_type ref_id hold_id specs db).1 ≡ db
recorded-keeps draws ref_type ref_id hold_id specs db (entry_id, at, known) =
    elim (post_transaction-tables draws ref_type ref_id hold_id specs db) [
      | inl kept ↦ kept
      | inr through ↦
          through
          ∙ within_tx_keeps (λ t. t ≡ db) (post_once_tx draws ref_type ref_id hold_id specs) db refl
              (λ view db' done. elim (Result-cases (resolve specs [] db)) [
                | inl ((accounts, ps), resolved) ↦ sym (
                    replayed-same draws ref_type ref_id hold_id specs db db' view accounts ps
                      entry_id at resolved known done)
                | inr (x, unknown) ↦ absurd (unfold post_once_tx in ground arith)
              ])
    ]

-- Once PostTransaction has answered a reference with an entry, a later call with that reference,
-- whatever its legs, its hold and its ids, leaves every table as it is.
pub post_transaction_once :
    (draws later : Draws) (ref_type ref_id hold_id hold_id' : String)
    (specs specs' : List PostingSpec) (db db' : Db) (view : EntryView)
    → post_transaction draws ref_type ref_id hold_id specs db ≡ (ok view, db')
    → (post_transaction later ref_type ref_id hold_id' specs' db').1 ≡ db'
post_transaction_once draws later ref_type ref_id hold_id hold_id' specs specs' db db' view e =
    recorded-keeps later ref_type ref_id hold_id' specs' db'
      (post_transaction-IsRecorded draws ref_type ref_id hold_id specs db db' view e)
