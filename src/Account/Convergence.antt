-- ===== src/Account/Convergence.antt =====
-- Proofs about the order of deliveries in services/account/internal/adapters/kafka/consumers.go.
use bank_core.Prelude.{◌≡◌, ◌≢◌, arith, inl, inr, String, true, List, none, some, Option-cases}
use bank_core.Prelude.Int.{ℤ, ◌≤ℤ◌, int_laws}
use bank_core.Ledger.Store.{find_row, is_some}
use bank_core.Account.Tables.{Projected, AccountDb, has_id, balance_of}
use bank_core.Account.Projection.{deliver_all}
use bank_core.Account.Newest.{In, folded, balance_of-deliver_all, folded-Newest, folded-none}

antisym : (u v : ℤ) → u ≤ℤ v → v ≤ℤ u → u ≡ v
antisym u v h k = grind (int_laws, h, k)

module _ (a : String) (bs cs : List Projected) (there : (b : Projected) → In b bs → In b cs)
    (back : (b : Projected) → In b cs → In b bs)
    (one_per_version : (b c : Projected)
      → In b bs
      → In c bs
      → b.account_id ≡ c.account_id
      → b.version ≡ c.version
      → b ≡ c) where
  -- From a row that was there.
  converge-some : (r : Projected) → folded a bs (some r) ≡ folded a cs (some r)
  converge-some r =
      let (s, e, (origin, least, all)) = folded-Newest bs a r in
      let (t, e', (origin', least', all')) = folded-Newest cs a r in
      let below : (s.version ≤ℤ t.version) = elim origin [
        | inl same ↦ ground (arith, same, least')
        | inr (i, named, _) ↦ all' s (there s i) named
      ] in
      let above : (t.version ≤ℤ s.version) = elim origin' [
        | inl same ↦ ground (arith, same, least)
        | inr (i, named, _) ↦ all t (back t i) named
      ] in
      let version = antisym s.version t.version below above in
      let same : (s ≡ t) = elim origin [
        | inl old ↦ elim origin' [
          | inl old' ↦ ground (arith, old, old')
          | inr (_, _, lt) ↦ absurd (ground (arith, old, lt, version))
        ]
        | inr (i, named, lt) ↦ elim origin' [
          | inl old' ↦ absurd (ground (arith, old', lt, version))
          | inr (j, named', _) ↦
              one_per_version s t i (back t j) (ground (arith, named, named')) version
        ]
      ] in
      ground (arith, e, e', same)

  converge-none : folded a bs none ≡ folded a cs none
  converge-none = elim (folded-none bs a) [
    | inl (e, empty) ↦ elim (folded-none cs a) [
      | inl (e', _) ↦ ground (arith, e, e')
      | inr (t, _, (j, named), _) ↦ absurd (empty t (back t j) named)
    ]
    | inr (s, e, (i, named), all) ↦ elim (folded-none cs a) [
      | inl (_, empty) ↦ absurd (empty s (there s i) named)
      | inr (t, e', (j, named'), all') ↦
          let version =
            antisym s.version t.version (all' s (there s i) named) (all t (back t j) named') in
          let same = one_per_version s t i (back t j) (ground (arith, named, named')) version in
          ground (arith, e, e', same)
    ]
  ]

-- The balance projection of an account converges: two lists of deliveries with the same events, in any
-- order and each any number of times, where an account's version is of one event, leave the same row of
-- the account, whatever events of other accounts, known or not, are among them.
pub projection_converges :
    (bs cs : List Projected) (a : String) (db : AccountDb)
    → a ≢ ""
    → is_some (find_row (has_id a) db.accounts) ≡ true
    → ((b : Projected) → In b bs → In b cs)
    → ((b : Projected) → In b cs → In b bs)
    → ((b c : Projected)
        → In b bs
        → In c bs
        → b.account_id ≡ c.account_id
        → b.version ≡ c.version
        → b ≡ c)
    → balance_of a (deliver_all bs db) ≡ balance_of a (deliver_all cs db)
projection_converges bs cs a db given known there back one =
    let left = balance_of-deliver_all bs a db given known in
    let right = balance_of-deliver_all cs a db given known in
    elim (Option-cases (balance_of a db)) [
      | inl missing ↦ ground (arith, left, right, missing, converge-none a bs cs there back one)
      | inr (r, found) ↦ ground (arith, left, right, found, converge-some a bs cs there back one r)
    ]
