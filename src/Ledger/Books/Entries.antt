-- ===== src/Ledger/Books/Entries.antt =====
-- The writes of the entry, its legs and its events (steps 5 and 7 of postOnce).
use bank_core.Prelude.{
  ℕ, ◌+◌, ◌≡◌, refl, inl, inr, arith, String, str_eq, if◌then◌else◌, List, [], ◌∷◌, some, none,
}
use bank_core.Prelude.Int.{pos, ◌+ℤ◌, int_laws}
use bank_core.Prelude.Dict.{Dict, lookup}
use bank_core.Prelude.Results.{ok, Result-cases}
use bank_core.Ledger.Domain.{Account, Balance, Posting}
use bank_core.Ledger.Domain.Entry.{sum_of}
use bank_core.Ledger.Store.{
  Db, EntryRow, EntryRef, EntryView, PostingView, PostingRow, insert_entry, insert_entry_ref,
  insert_posting, insert_outbox,
}
use bank_core.Ledger.Service.{Draws, insert_postings, emit_events}
use bank_core.Ledger.Books.Invariant.{sum_for, posted_in}
use bank_core.Ledger.Books.Deltas.{sum_legs}

pub insert_entry-eq :
    (e : EntryRow) (db db' : Db)
    → insert_entry e db ≡ ok (tt, db')
    → db' ≡ record db { entries = e ∷ db.entries }
unfolding insert_entry
insert_entry-eq e db db' h = ground arith

pub insert_entry_ref-eq :
    (r : EntryRef) (db db' : Db)
    → insert_entry_ref r db ≡ ok (tt, db')
    → db' ≡ record db { entry_refs = r ∷ db.entry_refs }
unfolding insert_entry_ref
insert_entry_ref-eq r db db' h = ground arith

row_of : PostingView → PostingRow
row_of p = record {
  id = p.id;
  entry_id = p.entry_id;
  account_id = p.account_id;
  amount = p.amount;
  currency = p.currency;
  occurred_at = p.occurred_at;
}

insert_posting-eq :
    (p : PostingView) (db db' : Db)
    → insert_posting p db ≡ ok (tt, db')
    → db' ≡ record db { postings = row_of p ∷ db.postings }
unfolding insert_posting row_of
insert_posting-eq p db db' h = ground arith

-- The tables after the legs: only the postings change, and every sum over them grows by the legs.
pub record Posted (ps : List Posting) (db db' : Db) : Type 0 where
  pub tables : db' ≡ record db { postings = db'.postings }
  pub by_account : (a : String) → sum_for a db'.postings ≡ sum_for a db.postings +ℤ sum_legs a ps
  pub by_currency : (c : String) → posted_in c db'.postings ≡ posted_in c db.postings +ℤ sum_of c ps

Posted-cons :
    (p : Posting) (ps : List Posting) (pv : PostingView) (db db₁ db₂ : Db)
    → pv.account_id ≡ p.account_id
    → pv.amount ≡ p.amount
    → pv.currency ≡ p.currency
    → db₁ ≡ record db { postings = row_of pv ∷ db.postings }
    → Posted ps db₁ db₂
    → Posted (p ∷ ps) db db₂
unfolding row_of
Posted-cons p ps pv db db₁ db₂ account amount currency tables ih = record {
  tables = ground (arith, tables, ih.tables);
  by_account = λ a.
      let step : (sum_for a db₁.postings
          ≡ (if str_eq a p.account_id then p.amount else pos 0) +ℤ sum_for a db.postings) =
        ground (arith, tables, account, amount) in
      grind (int_laws, step, ih.by_account a);
  by_currency = λ c.
      let step : (posted_in c db₁.postings
          ≡ (if str_eq c p.currency then p.amount else pos 0) +ℤ posted_in c db.postings) =
        ground (arith, tables, currency, amount) in
      grind (int_laws, step, ih.by_currency c);
}

pub insert_postings-Posted :
    (draws : Draws) (i : ℕ) (accounts : Dict Account) (ps : List Posting) (db db' : Db)
    (views : List PostingView)
    → insert_postings draws i accounts ps db ≡ ok (views, db')
    → Posted ps db db'
unfolding insert_postings
insert_postings-Posted draws i accounts [] db db' views e =
    let same : (db' ≡ db) = ground arith in
    rw same (record {
      tables = refl;
      by_account = λ a. omega int_laws;
      by_currency = λ c. omega int_laws;
    })
insert_postings-Posted draws i accounts (p ∷ ps) db db' views e =
    let pv : PostingView = record {
      id = draws.posting_id i;
      entry_id = draws.entry_id;
      account_id = p.account_id;
      external_account_id = elim (lookup p.account_id accounts) [
        | some a ↦ a.external_id
        | none ↦ ""
      ];
      amount = p.amount;
      currency = p.currency;
      occurred_at = draws.now;
    } in
    elim (Result-cases (insert_posting pv db)) [
      | inr (x, refused) ↦ absurd (ground arith)
      | inl ((_, db₁), wrote) ↦
          elim (Result-cases (insert_postings draws (i + 1) accounts ps db₁)) [
            | inr (x, later) ↦ absurd (ground arith)
            | inl ((rest, db₂), done) ↦
                let ih = insert_postings-Posted draws (i + 1) accounts ps db₁ db₂ rest done in
                let last : (db' ≡ db₂) = ground arith in
                rw last (
                  Posted-cons p ps pv db db₁ db₂ refl refl refl (insert_posting-eq pv db db₁ wrote)
                    ih)
          ]
    ]

-- The events touch nothing but the outbox.
pub emit_events-eq :
    (ids : List String) (accounts : Dict Account) (balances : Dict Balance) (view : EntryView)
    (db db' : Db)
    → emit_events ids accounts balances view db ≡ ok (tt, db')
    → db' ≡ record db { outbox = db'.outbox }
unfolding emit_events insert_outbox
emit_events-eq [] accounts balances view db db' e = ground arith
emit_events-eq (id ∷ ids) accounts balances view db db' e =
    let ih = emit_events-eq ids accounts balances view _ db' e in ground (arith, ih)
