-- ===== src/Ledger/Books/Balances.antt =====
-- The loops over the affected accounts (steps 4 and 6 of postOnce).
use bank_core.Prelude.{
  ◌≡◌, refl, inl, inr, arith, String, true, false, if◌then◌else◌, List, [], ◌∷◌, none, some,
  Bool-cases, Option-cases,
}
use bank_core.Prelude.Int.{ℤ, pos, ltb_ℤ}
use bank_core.Prelude.Int64.{add64}
use bank_core.Prelude.Dict.{Dict, lookup, insert, lookup-insert, get_or}
use bank_core.Prelude.Sort.{elem}
use bank_core.Prelude.Results.{ok, Result-cases}
use bank_core.Ledger.Domain.{Account, Balance, apply_posting}
use bank_core.Ledger.Store.{Db, update_balance, lock_balance}
use bank_core.Ledger.Store.Lemmas.{
  written?, lookup-update, lookup-update_found, >>=-eq-ok, update_balance-ok,
}
use bank_core.Ledger.Service.{next_balance, next_balances, write_balances, zero_balance}

-- The row with its `held` adjusted, which ApplyPosting gets.
abbrev pub adjusted : String → Dict ℤ → Balance → Balance
adjusted id adj b = record b { held = add64 b.held (get_or adj id (pos 0)) }

abbrev pub type_in : String → Dict Account → String
type_in id accounts = elim (lookup id accounts) [ some a ↦ a.type | none ↦ "" ]

-- What the loop computes for one account.
abbrev pub Next : Dict Account → Dict ℤ → Dict ℤ → Db → String → Balance → Type 0
Next accounts delta adj db a nb =
    (b : Balance) × (lookup a db.balances ≡ some b)
    × (ltb_ℤ (adjusted a adj b).held (pos 0) ≡ false)
    × (apply_posting (adjusted a adj b) (type_in a accounts) (get_or delta a (pos 0)) ≡ ok nb)

next_balances-cons :
    (id : String) (ids : List String) (accounts : Dict Account) (delta adj : Dict ℤ) (db : Db)
    (acc out : Dict Balance)
    → next_balances (id ∷ ids) accounts delta adj db acc ≡ ok out
    → (nb : Balance) × Next accounts delta adj db id nb
      × (next_balances ids accounts delta adj db (insert id nb acc) ≡ ok out)
unfolding next_balances next_balance lock_balance
next_balances-cons id ids accounts delta adj db acc out e =
    elim (Option-cases (lookup id db.balances)) [
      | inl missing ↦ absurd (ground arith)
      | inr (b, found) ↦ elim (Bool-cases (ltb_ℤ (adjusted id adj b).held (pos 0))) [
        | inl under ↦ absurd (ground arith)
        | inr fits ↦
            elim (Result-cases
              (apply_posting (adjusted id adj b) (type_in id accounts) (get_or delta id (pos 0)))) [
                | inr (x, refused) ↦ absurd (ground arith)
                | inl (nb, applied) ↦ (nb, (b, found, fits, applied), ground arith)
              ]
      ]
    ]

-- An account that no round computes keeps what the map has.
next_balances-other :
    (ids : List String) (accounts : Dict Account) (delta adj : Dict ℤ) (db : Db)
    (acc out : Dict Balance) (a : String)
    → next_balances ids accounts delta adj db acc ≡ ok out
    → elem a ids ≡ false
    → lookup a out ≡ lookup a acc
unfolding next_balances
next_balances-other [] accounts delta adj db acc out a e other = ground arith
next_balances-other (id ∷ ids) accounts delta adj db acc out a e other =
    let (nb, _, rest) = next_balances-cons id ids accounts delta adj db acc out e in
    let ih =
      next_balances-other ids accounts delta adj db (insert id nb acc) out a rest (ground arith) in
    ground (arith, ih, lookup-insert a id nb acc)

-- Each affected account has the balance that its round computes.
pub next_balances-Next :
    (ids : List String) (accounts : Dict Account) (delta adj : Dict ℤ) (db : Db)
    (acc out : Dict Balance) (a : String)
    → next_balances ids accounts delta adj db acc ≡ ok out
    → elem a ids ≡ true
    → (nb : Balance) × (lookup a out ≡ some nb) × Next accounts delta adj db a nb
next_balances-Next [] accounts delta adj db acc out a e member = absurd (ground arith)
next_balances-Next (id ∷ ids) accounts delta adj db acc out a e member =
    let (nb, next, rest) = next_balances-cons id ids accounts delta adj db acc out e in
    elim (Bool-cases (elem a ids)) [
      | inl later ↦ next_balances-Next ids accounts delta adj db (insert id nb acc) out a rest later
      | inr last ↦
          let same : (a ≡ id) = ground arith in
          let kept =
            next_balances-other ids accounts delta adj db (insert id nb acc) out a rest last in
          (nb, ground (arith, kept, lookup-insert a id nb acc), rw same next)
    ]

-- What the writes need of the computed balances: each is of its own account, which has a row.
abbrev pub AreOwn : List String → Dict Balance → Db → Type 0
AreOwn ids out db =
    (a : String)
    → elem a ids ≡ true
    → ((get_or out a zero_balance).account_id ≡ a)
      × ((w : Balance) × (lookup a db.balances ≡ some w))

-- The tables after the writes: only the balances change, each affected row to the one computed.
pub write_balances-eq :
    (ids : List String) (out : Dict Balance) (db db' : Db)
    → AreOwn ids out db
    → write_balances ids out db ≡ ok (tt, db')
    → (db' ≡ record db { balances = db'.balances })
      × ((a : String)
          → lookup a db'.balances ≡ (
              if elem a ids
              then written? (lookup a db.balances) (get_or out a zero_balance)
              else lookup a db.balances))
unfolding write_balances
write_balances-eq [] out db db' own e =
    let same : (db' ≡ db) = ground arith in rw same (refl, λ a. refl)
write_balances-eq (id ∷ ids) out db db' own e =
    let b = get_or out id zero_balance in
    let (mine, (w, found)) = own id (ground arith) in
    let (_, db₁, wrote, rest) = >>=-eq-ok (update_balance b) _ db e in
    let (_, tables₁) = update_balance-ok b w db db₁ (simp mine found) wrote in
    let one = λ (a : String). lookup-update a id b db.balances in
    let (tables, ih) =
      write_balances-eq ids out db₁ db'
        (λ a member.
          let (mine_a, (v, found_a)) = own a (ground arith) in
          (mine_a, simp (tables₁, mine) (lookup-update_found a id b v db.balances found_a)))
        rest in
    (ground (arith, tables, tables₁), λ a. ground (arith, ih a, one a, tables₁, mine, found))
