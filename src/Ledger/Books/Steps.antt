-- ===== src/Ledger/Books/Steps.antt =====
-- The steps of postOnce for a new reference, one fact for each.
use bank_core.Prelude.{◌≡◌, refl, arith, String, List, [], ◌∷◌, ◌∙◌}
use bank_core.Prelude.Int.{ℤ}
use bank_core.Prelude.Dict.{Dict, keys}
use bank_core.Prelude.Sort.{sort}
use bank_core.Prelude.Results.{ok}
use bank_core.Ledger.Domain.{Account, Balance, Posting, validate_entry}
use bank_core.Ledger.Store.{
  Db, EntryRow, EntryRef, EntryView, lift, query, insert_entry, insert_entry_ref,
}
use bank_core.Ledger.Store.Lemmas.{>>=-eq-ok, lift-eq-ok, query-eq-ok, pure-eq-ok}
use bank_core.Ledger.Service.{
  Draws, net_delta, capture_step, next_balances, insert_postings, write_balances, emit_events,
  post_new,
}
use bank_core.Ledger.Books.Entries.{
  insert_entry-eq, insert_entry_ref-eq, Posted, insert_postings-Posted, emit_events-eq,
}

-- The steps that a posted entry has gone through, up to the writes.
pub record Steps (ref_type ref_id hold_id : String) (accounts : Dict Account) (ps : List Posting)
    (db db' : Db) : Type 0 where
  pub delta : Dict ℤ
  pub adj : Dict ℤ
  pub balances : Dict Balance
  pub captured : Db
  pub valid : validate_entry ps accounts ≡ ok tt
  pub netted : net_delta ps [] ≡ ok delta
  pub capture : capture_step ref_type ref_id hold_id delta db ≡ ok (adj, captured)
  pub computed : next_balances (sort (keys delta)) accounts delta adj captured [] ≡ ok balances
  pub entered : Db
  pub posted : Db
  pub wrote : Db
  pub entry_tables :
      entered ≡ record captured { entries = entered.entries; entry_refs = entered.entry_refs }
  pub entered_ref :
      (r : EntryRef) × (r.reference_type ≡ ref_type)
      × (r.reference_id ≡ ref_id)
      × (entered.entry_refs ≡ r ∷ captured.entry_refs)
  pub legs : Posted ps entered posted
  pub writing : write_balances (sort (keys delta)) balances posted ≡ ok (tt, wrote)
  pub final_tables : db' ≡ record wrote { outbox = db'.outbox }

entered_tables :
    (db₃ db₄ db₅ db₆ : Db) (e : EntryRow) (r : EntryRef)
    → db₄ ≡ db₃
    → db₅ ≡ record db₄ { entries = e ∷ db₄.entries }
    → db₆ ≡ record db₅ { entry_refs = r ∷ db₅.entry_refs }
    → db₆ ≡ record db₃ { entries = db₆.entries; entry_refs = db₆.entry_refs }
entered_tables db₃ db₄ db₅ db₆ e r h i j = ground arith

entered_refs :
    (db₃ db₄ db₅ db₆ : Db) (e : EntryRow) (r : EntryRef)
    → db₄ ≡ db₃
    → db₅ ≡ record db₄ { entries = e ∷ db₄.entries }
    → db₆ ≡ record db₅ { entry_refs = r ∷ db₅.entry_refs }
    → db₆.entry_refs ≡ r ∷ db₃.entry_refs
entered_refs db₃ db₄ db₅ db₆ e r h i j = ground arith

last_tables :
    (db₈ db₉ db' : Db)
    → db₉ ≡ record db₈ { outbox = db₉.outbox }
    → db₉ ≡ db'
    → db' ≡ record db₈ { outbox = db'.outbox }
last_tables db₈ db₉ db' tables last = ground arith

capture_from :
    (ref_type ref_id hold_id : String) (delta adj : Dict ℤ) (db db₂ db₃ : Db)
    → db₂ ≡ db
    → capture_step ref_type ref_id hold_id delta db₂ ≡ ok (adj, db₃)
    → capture_step ref_type ref_id hold_id delta db ≡ ok (adj, db₃)
capture_from ref_type ref_id hold_id delta adj db db₂ db₃ same e = rw same at e

pub post_new-Steps :
    (draws : Draws) (ref_type ref_id hold_id : String) (accounts : Dict Account) (ps : List Posting)
    (db db' : Db) (view : EntryView)
    → post_new draws ref_type ref_id hold_id accounts ps db ≡ ok (view, db')
    → Steps ref_type ref_id hold_id accounts ps db db'
unfolding post_new
post_new-Steps draws ref_type ref_id hold_id accounts ps db db' view e =
    let (_, db₁, valid, e₁) = >>=-eq-ok (lift (validate_entry ps accounts)) _ db e in
    let (delta, db₂, netted, e₂) = >>=-eq-ok (lift (net_delta ps [])) _ db₁ e₁ in
    let (adj, db₃, capture, e₃) = >>=-eq-ok (capture_step ref_type ref_id hold_id delta) _ db₂ e₂ in
    let affected = sort (keys delta) in
    let (balances, db₄, computed, e₄) =
      >>=-eq-ok (query (λ t. next_balances affected accounts delta adj t [])) _ db₃ e₃ in
    let (_, db₅, in_entries, e₅) = >>=-eq-ok (insert_entry _) _ db₄ e₄ in
    let (_, db₆, in_refs, e₆) = >>=-eq-ok (insert_entry_ref _) _ db₅ e₅ in
    let (views, db₇, in_postings, e₇) = >>=-eq-ok (insert_postings draws 0 accounts ps) _ db₆ e₆ in
    let (_, db₈, writing, e₈) = >>=-eq-ok (write_balances affected balances) _ db₇ e₇ in
    let (_, db₉, emitted, e₉) = >>=-eq-ok (emit_events affected accounts balances _) _ db₈ e₈ in
    let (valid', t₁) = lift-eq-ok (validate_entry ps accounts) db valid in
    let (netted', t₂) = lift-eq-ok (net_delta ps []) db₁ netted in
    let (computed', t₄) =
      query-eq-ok (λ t. next_balances affected accounts delta adj t []) db₃ computed in
    let start : (db₂ ≡ db) = t₂ ∙ t₁ in
    let (_, last) = pure-eq-ok _ db₉ e₉ in
    record {
      delta = delta;
      adj = adj;
      balances = balances;
      captured = db₃;
      valid = valid';
      netted = netted';
      capture = capture_from ref_type ref_id hold_id delta adj db db₂ db₃ start capture;
      computed = computed';
      entered = db₆;
      posted = db₇;
      wrote = db₈;
      entry_tables =
          entered_tables db₃ db₄ db₅ db₆ _ _ t₄ (insert_entry-eq _ db₄ db₅ in_entries)
            (insert_entry_ref-eq _ db₅ db₆ in_refs);
      entered_ref = (
        _,
        refl,
        refl,
        entered_refs db₃ db₄ db₅ db₆ _ _ t₄ (insert_entry-eq _ db₄ db₅ in_entries)
            (insert_entry_ref-eq _ db₅ db₆ in_refs),
      );
      legs = insert_postings-Posted draws 0 accounts ps db₆ db₇ views in_postings;
      writing = writing;
      final_tables =
          last_tables db₈ db₉ db' (emit_events-eq affected accounts balances _ db₈ db₉ emitted)
            last;
    }
