-- ===== src/Ledger/Books/Outcome.antt =====
-- What posting an entry does to the tables, and the invariant after it.
use bank_core.Prelude.{
  ◌≡◌, refl, inl, inr, arith, String, str_eq, true, false, List, [], ◌∷◌, none, some, All,
  Bool-cases, sym, ◌∙◌,
}
use bank_core.Prelude.Int.{ℤ, pos, ◌+ℤ◌, ◌≤ℤ◌, int_laws}
use bank_core.Prelude.Int64.{IsInt64, add64, add64_exact}
use bank_core.Prelude.Dict.{Dict, lookup, get_or}
use bank_core.Prelude.Results.{ok}
use bank_core.Ledger.Domain.{Account, Balance, Posting, type_customer, apply_posting}
use bank_core.Ledger.Domain.Holds.{IsRow, apply_posting-ok, apply_posting-eq}
use bank_core.Ledger.Store.{Db, account_by_id}
use bank_core.Ledger.Store.Lemmas.{written, HasUniqueIds}
use bank_core.Ledger.Books.Invariant.{
  IsConsistent, IsBalanced, IsHold, sum_for, held_for, posted_in,
}
use bank_core.Ledger.Books.Deltas.{sum_legs, is_posted}

-- The balance that a posting leaves: moved by the delta, with what is held moved by the adjustment.
pub record IsMoved (type : String) (adj delta : ℤ) (b nb : Balance) : Type 0 where
  pub own : nb.account_id ≡ b.account_id
  pub moved : nb.balance ≡ b.balance +ℤ delta
  pub kept : nb.held ≡ b.held +ℤ adj
  pub row : IsRow nb
  pub covers : type ≡ type_customer → nb.held ≤ℤ nb.balance

pub apply_posting-IsMoved :
    (b nb : Balance) (type : String) (adj delta held' : ℤ)
    → IsRow b
    → IsInt64 delta
    → (type ≡ type_customer → b.held ≤ℤ b.balance)
    → held' ≡ b.held +ℤ adj
    → pos 0 ≤ℤ held'
    → adj ≤ℤ pos 0
    → apply_posting (record b { held = add64 b.held adj }) type delta ≡ ok nb
    → IsMoved type adj delta b nb
apply_posting-IsMoved b nb type adj delta held' row hd cover after nonneg less e =
    let range : IsInt64 (b.held +ℤ adj) = grind (int_laws, row.held_range, after, nonneg, less) in
    let exact = add64_exact b.held adj range in
    let start : IsRow (record b { held = add64 b.held adj }) = record {
      balance_range = row.balance_range;
      held_range = rw exact range;
      held_nonneg = rw (exact, ← after) nonneg;
    } in
    let (moved, kept, _, row', covers) =
      apply_posting-ok (record b { held = add64 b.held adj }) type delta nb start hd
        (λ customer. rw exact (grind (int_laws, less, cover customer))) e in
    let (_, _, own, _, _, _) =
      apply_posting-eq (record b { held = add64 b.held adj }) type delta e in
    record { own = own; moved = moved; kept = kept ∙ exact; row = row'; covers = covers }

-- What posting the legs has done to the tables.
pub record Outcome (ps : List Posting) (adj : Dict ℤ) (db db' : Db) : Type 0 where
  pub accounts : db'.accounts ≡ db.accounts
  pub holds_ok : All IsHold db'.holds
  pub holds_unique : HasUniqueIds db'.holds
  pub reserves : (a : String) → held_for a db'.holds ≡ held_for a db.holds +ℤ get_or adj a (pos 0)
  pub by_account : (a : String) → sum_for a db'.postings ≡ sum_for a db.postings +ℤ sum_legs a ps
  pub by_currency : (c : String) → posted_in c db'.postings ≡ posted_in c db.postings
  pub moved :
      (a : String)
      → is_posted a ps ≡ true
      → (b : Balance) × (nb : Balance) × (acct : Account) × (lookup a db.balances ≡ some b)
        × (lookup a db'.balances ≡ some (written b nb))
        × (account_by_id a db ≡ some acct)
        × IsMoved acct.type (get_or adj a (pos 0)) (sum_legs a ps) b nb
  pub kept : (a : String) → is_posted a ps ≡ false → lookup a db'.balances ≡ lookup a db.balances

sum_legs-unposted :
    (a : String) (ps : List Posting) → is_posted a ps ≡ false → sum_legs a ps ≡ pos 0
sum_legs-unposted a [] e = refl
sum_legs-unposted a (p ∷ ps) e =
    let rest : (is_posted a ps ≡ false) = ground arith in
    let other : (str_eq a p.account_id ≡ false) = ground arith in
    rw (other, sum_legs-unposted a ps rest) (omega int_laws)

module _ (ps : List Posting) (adj : Dict ℤ) (db db' : Db) (c : IsConsistent db)
    (o : Outcome ps adj db db')
    (aside : (a : String) → is_posted a ps ≡ false → get_or adj a (pos 0) ≡ pos 0) where
  -- The sums over an account of no leg stay.
  unposted-sums :
      (a : String)
      → is_posted a ps ≡ false
      → (sum_for a db'.postings ≡ sum_for a db.postings)
        × (held_for a db'.holds ≡ held_for a db.holds)
  unposted-sums a un = (
    grind (int_laws, o.by_account a, sum_legs-unposted a ps un),
    grind (int_laws, o.reserves a, aside a un),
  )

  posted-IsBalanced :
      (a : String) (b : Balance) → lookup a db'.balances ≡ some b → IsBalanced a b db'
  posted-IsBalanced a b found = elim (Bool-cases (is_posted a ps)) [
    | inl ours ↦
        let (b₀, nb, acct, before, after, known, m) = o.moved a ours in
        let old = c.balanced a b₀ before in
        let same : (b ≡ written b₀ nb) = ground (arith, found, after) in
        rw same (record {
          row = record {
            balance_range = m.row.balance_range;
            held_range = m.row.held_range;
            held_nonneg = m.row.held_nonneg;
          };
          own_id = old.own_id;
          balance_sum = grind (int_laws, m.moved, old.balance_sum, o.by_account a);
          held_sum = grind (int_laws, m.kept, old.held_sum, o.reserves a);
        })
    | inr un ↦
        let old = c.balanced a b (sym (o.kept a un) ∙ found) in
        let (sums, holds) = unposted-sums a un in
        record {
          row = old.row;
          own_id = old.own_id;
          balance_sum = old.balance_sum ∙ sym sums;
          held_sum = old.held_sum ∙ sym holds;
        }
  ]

  posted-unused :
      (a : String)
      → lookup a db'.balances ≡ none
      → (sum_for a db'.postings ≡ pos 0) × (held_for a db'.holds ≡ pos 0)
  posted-unused a missing = elim (Bool-cases (is_posted a ps)) [
    | inl ours ↦
        let (b₀, nb, acct, before, after, known, m) = o.moved a ours in
        absurd (ground (arith, missing, after))
    | inr un ↦
        let (no_sum, no_hold) = c.unused a (sym (o.kept a un) ∙ missing) in
        let (sums, holds) = unposted-sums a un in (sums ∙ no_sum, holds ∙ no_hold)
  ]

  posted-covered :
      (a : String) (b : Balance) (acct : Account)
      → lookup a db'.balances ≡ some b
      → account_by_id a db ≡ some acct
      → acct.type ≡ type_customer
      → b.held ≤ℤ b.balance
  posted-covered a b acct found known customer = elim (Bool-cases (is_posted a ps)) [
    | inl ours ↦
        let (b₀, nb, acct', before, after, known', m) = o.moved a ours in
        let same : (b ≡ written b₀ nb) = ground (arith, found, after) in
        let same' : (acct ≡ acct') = ground (arith, known, known') in
        rw same (m.covers (rw (← same') customer))
    | inr un ↦ c.covered a b acct (sym (o.kept a un) ∙ found) known customer
  ]

  pub Outcome-IsConsistent : IsConsistent db'
  unfolding account_by_id
  Outcome-IsConsistent = record {
    keyed = rw o.accounts c.keyed;
    balanced = posted-IsBalanced;
    unused = posted-unused;
    covered = λ a b acct found known. posted-covered a b acct found (rw o.accounts at known);
    holds_ok = o.holds_ok;
    holds_unique = o.holds_unique;
    conserved = λ k. o.by_currency k ∙ c.conserved k;
  }
