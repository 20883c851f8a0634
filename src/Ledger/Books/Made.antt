-- ===== src/Ledger/Books/Made.antt =====
-- From the steps of postOnce to what posting an entry does to the tables.
use bank_core.Prelude.{◌≡◌, arith, String, true, List, [], some, All, sym, ◌∙◌}
use bank_core.Prelude.Int.{pos, int_laws}
use bank_core.Prelude.Int64.{IsInt64}
use bank_core.Prelude.Dict.{Dict, lookup, keys, get_or}
use bank_core.Prelude.Sort.{sort}
use bank_core.Ledger.Domain.{Account, Balance, Posting}
use bank_core.Ledger.Domain.Entry.{IsDoubleEntry, validate_entry-IsDoubleEntry}
use bank_core.Ledger.Store.{Db, account_by_id}
use bank_core.Ledger.Service.{zero_balance}
use bank_core.Ledger.Books.Invariant.{IsConsistent, held_for}
use bank_core.Ledger.Books.Deltas.{
  sum_legs, is_posted, net_delta-exact, elem-affected, AgreesWith, legs-known,
}
use bank_core.Ledger.Books.Capture.{Captured, capture_step-Captured}
use bank_core.Ledger.Books.Balances.{AreOwn, next_balances-Next, write_balances-eq, type_in}
use bank_core.Ledger.Books.Steps.{Steps}
use bank_core.Ledger.Books.Outcome.{IsMoved, apply_posting-IsMoved, Outcome}

get_or-account_id :
    (out : Dict Balance) (a : String) (nb : Balance)
    → lookup a out ≡ some nb
    → nb.account_id ≡ a
    → (get_or out a zero_balance).account_id ≡ a
get_or-account_id out a nb found own = ground arith

-- What the steps leave of each table.
tables-through :
    (db captured entered posted wrote db' : Db)
    → captured ≡ record db { holds = captured.holds }
    → entered ≡ record captured { entries = entered.entries; entry_refs = entered.entry_refs }
    → posted ≡ record entered { postings = posted.postings }
    → wrote ≡ record posted { balances = wrote.balances }
    → db' ≡ record wrote { outbox = db'.outbox }
    → (db'.accounts ≡ db.accounts)
      × (db'.holds ≡ captured.holds)
      × (entered.postings ≡ db.postings)
      × (db'.postings ≡ posted.postings)
      × (db'.balances ≡ wrote.balances)
tables-through db captured entered posted wrote db' h₁ h₂ h₃ h₄ h₅ = ground arith

balances-through :
    (db captured entered posted : Db)
    → captured ≡ record db { holds = captured.holds }
    → entered ≡ record captured { entries = entered.entries; entry_refs = entered.entry_refs }
    → posted ≡ record entered { postings = posted.postings }
    → (captured.balances ≡ db.balances) × (posted.balances ≡ db.balances)
balances-through db captured entered posted h₁ h₂ h₃ = ground arith

module _ (ref_type ref_id hold_id : String) (accounts : Dict Account) (ps : List Posting)
    (db db' : Db) (c : IsConsistent db) (agrees : AgreesWith db accounts)
    (amounts : All (λ p. IsInt64 p.amount) ps)
    (s : Steps ref_type ref_id hold_id accounts ps db db') where
  capture-done : Captured s.adj db s.captured
  capture-done =
      capture_step-Captured ref_type ref_id hold_id s.delta s.adj db s.captured c s.capture

  entry-done : IsDoubleEntry accounts ps
  entry-done = validate_entry-IsDoubleEntry ps accounts amounts s.valid

  same-balances : (s.captured.balances ≡ db.balances) × (s.posted.balances ≡ db.balances)
  same-balances =
      balances-through db s.captured s.entered s.posted capture-done.tables s.entry_tables
        s.legs.tables

  -- The balance computed for the account of a leg.
  account-IsMoved :
      (a : String)
      → is_posted a ps ≡ true
      → (b : Balance) × (nb : Balance) × (acct : Account) × (lookup a db.balances ≡ some b)
        × (lookup a s.balances ≡ some nb)
        × (account_by_id a db ≡ some acct)
        × IsMoved acct.type (get_or s.adj a (pos 0)) (sum_legs a ps) b nb
  account-IsMoved a ours =
      let member = elem-affected ps s.delta a s.netted ∙ ours in
      let (nb, out, (b, found, fits, applied)) =
        next_balances-Next (sort (keys s.delta)) accounts s.delta s.adj s.captured [] s.balances a
          s.computed member in
      let (acct, listed) = legs-known accounts ps a entry-done.legs ours in
      let known = agrees a acct listed in
      let before : (lookup a db.balances ≡ some b) = simp (← same-balances.0) found in
      let old = c.balanced a b before in
      let (exact, range) = net_delta-exact ps s.delta amounts s.netted a in
      let (after, nonneg, less) = capture-done.reserves a in
      let typed : (type_in a accounts ≡ acct.type) = ground (arith, listed) in
      (
        b,
        nb,
        acct,
        before,
        out,
        known,
        apply_posting-IsMoved b nb acct.type (get_or s.adj a (pos 0)) (sum_legs a ps)
            (held_for a s.captured.holds) old.row (rw (← exact) range)
            (λ customer. c.covered a b acct before known customer) (rw old.held_sum after) nonneg
            less (rw (← typed, ← exact) applied),
      )

  writes-AreOwn : AreOwn (sort (keys s.delta)) s.balances s.posted
  writes-AreOwn a member =
      let (b, nb, acct, before, out, known, m) =
        account-IsMoved a (sym (elem-affected ps s.delta a s.netted) ∙ member) in
      (
        get_or-account_id s.balances a nb out (m.own ∙ (c.balanced a b before).own_id),
        (b, simp (same-balances.1) before),
      )

  pub Steps-Outcome : Outcome ps s.adj db db'
  Steps-Outcome =
      let (wrote_tables, rows) =
        write_balances-eq (sort (keys s.delta)) s.balances s.posted s.wrote writes-AreOwn
          s.writing in
      let (same_accounts, same_holds, same_postings, new_postings, new_balances) =
        tables-through db s.captured s.entered s.posted s.wrote db' capture-done.tables
          s.entry_tables s.legs.tables wrote_tables s.final_tables in
      record {
        accounts = same_accounts;
        holds_ok = rw same_holds capture-done.holds_ok;
        holds_unique = rw same_holds capture-done.holds_unique;
        reserves = λ a. rw same_holds ((capture-done.reserves a).0);
        by_account = λ a. rw (new_postings, ← same_postings) (s.legs.by_account a);
        by_currency = λ k.
            grind
              (int_laws, new_postings, same_postings, s.legs.by_currency k, entry-done.zero_sum k);
        moved = λ a ours.
            let (b, nb, acct, before, out, known, m) = account-IsMoved a ours in
            (
              b,
              nb,
              acct,
              before,
              ground (
                arith,
                new_balances,
                rows a,
                elem-affected ps s.delta a s.netted,
                ours,
                same-balances.1,
                before,
                out,
              ),
              known,
              m,
            );
        kept = λ a un.
            ground (
              arith,
              new_balances,
              rows a,
              elem-affected ps s.delta a s.netted,
              un,
              same-balances.1,
            );
      }
