-- ===== src/Ledger/Books/Deltas.antt =====
-- Resolving the accounts and netting the legs (steps 1 and 3 of postOnce).
use bank_core.Prelude.{
  ◌≡◌, refl, inl, inr, arith, String, str_eq, Bool, true, false, ◌||◌, if◌then◌else◌, List, [], ◌∷◌,
  some, All, Bool-cases, Option-cases,
}
use bank_core.Prelude.Int.{ℤ, pos, ◌+ℤ◌, int_laws}
use bank_core.Prelude.Int64.{IsInt64, wrap}
use bank_core.Prelude.Dict.{Dict, lookup, insert, lookup-insert, keys, get_or}
use bank_core.Prelude.Sort.{elem, sort, elem-sort}
use bank_core.Prelude.Results.{ok, Result-cases}
use bank_core.Ledger.Domain.{Account, Posting}
use bank_core.Ledger.Domain.Entry.{LegOk}
use bank_core.Ledger.Store.{PostingSpec, Db, is_some, account_by_id, get_account_by_ref}
use bank_core.Ledger.Service.{resolve, add_int64, net_delta}
use bank_core.Ledger.Books.Invariant.{IsConsistent}
use bank_core.Ledger.Books.Place.{get_account_by_ref-keyed}

-- The sum of the legs on one account.
abbrev pub sum_legs : String → List Posting → ℤ
sum_legs a [] = pos 0
sum_legs a (p ∷ ps) = (if str_eq a p.account_id then p.amount else pos 0) +ℤ sum_legs a ps

-- Whether an account is among those of the legs.
abbrev pub is_posted : String → List Posting → Bool
is_posted a [] = false
is_posted a (p ∷ ps) = str_eq a p.account_id || is_posted a ps

add_int64-some :
    (a b : ℤ) {s : ℤ} → IsInt64 a → IsInt64 b → add_int64 a b ≡ some s → (s ≡ a +ℤ b) × IsInt64 s
unfolding add_int64 wrap ◌+ℤ◌
add_int64-some a b ha hb e = ground arith

net_delta-cons :
    (p : Posting) (ps : List Posting) (delta out : Dict ℤ)
    → net_delta (p ∷ ps) delta ≡ ok out
    → (s : ℤ) × (add_int64 (get_or delta p.account_id (pos 0)) p.amount ≡ some s)
      × (net_delta ps (insert p.account_id s delta) ≡ ok out)
unfolding net_delta
net_delta-cons p ps delta out e =
    elim (Option-cases (add_int64 (get_or delta p.account_id (pos 0)) p.amount)) [
      | inl over ↦ absurd (ground arith)
      | inr (s, sum) ↦ (s, sum, ground arith)
    ]

get_or-insert :
    (a k : String) (s : ℤ) (d : Dict ℤ)
    → get_or (insert k s d) a (pos 0) ≡ (if str_eq a k then s else get_or d a (pos 0))
get_or-insert a k s d = ground (arith, lookup-insert a k s d)

-- The net delta of an account is the exact sum of its legs.
net_delta-sums :
    (ps : List Posting) (delta out : Dict ℤ)
    → All (λ p. IsInt64 p.amount) ps
    → ((a : String) → IsInt64 (get_or delta a (pos 0)))
    → net_delta ps delta ≡ ok out
    → (a : String)
    → (get_or out a (pos 0) ≡ get_or delta a (pos 0) +ℤ sum_legs a ps)
      × IsInt64 (get_or out a (pos 0))
unfolding net_delta
net_delta-sums [] delta out hp hd e a =
    let same : (delta ≡ out) = ground arith in rw (← same) (omega int_laws, hd a)
net_delta-sums (p ∷ ps) delta out hp hd e a =
    let (s, added, rest) = net_delta-cons p ps delta out e in
    let exact =
      add_int64-some (get_or delta p.account_id (pos 0)) p.amount (hd p.account_id) hp.0 added in
    let keep : ((k : String) → IsInt64 (get_or (insert p.account_id s delta) k (pos 0))) =
      λ k. ground (arith, get_or-insert k p.account_id s delta, hd k, exact) in
    let ih = net_delta-sums ps (insert p.account_id s delta) out hp.1 keep rest a in
    (
      elim (Bool-cases (str_eq a p.account_id)) [
        | inl same ↦ grind (int_laws, ih, exact, get_or-insert a p.account_id s delta)
        | inr other ↦ grind (int_laws, ih, exact, get_or-insert a p.account_id s delta)
      ],
      ih.1,
    )

pub net_delta-exact :
    (ps : List Posting) (out : Dict ℤ)
    → All (λ p. IsInt64 p.amount) ps
    → net_delta ps [] ≡ ok out
    → (a : String) → (get_or out a (pos 0) ≡ sum_legs a ps) × IsInt64 (get_or out a (pos 0))
net_delta-exact ps out hp e a =
    let (exact, range) = net_delta-sums ps [] out hp (λ k. ground arith) e a in
    (grind (int_laws, exact), range)

elem-keys : (a : String) (d : Dict ℤ) → elem a (keys d) ≡ is_some (lookup a d)
elem-keys a [] = refl
elem-keys a ((k, v) ∷ d) = ground (arith, elem-keys a d)

net_delta-keys :
    (ps : List Posting) (delta out : Dict ℤ) (a : String)
    → net_delta ps delta ≡ ok out
    → is_some (lookup a out) ≡ (is_some (lookup a delta) || is_posted a ps)
unfolding net_delta
net_delta-keys [] delta out a e = ground arith
net_delta-keys (p ∷ ps) delta out a e =
    let (s, added, rest) = net_delta-cons p ps delta out e in
    let ih = net_delta-keys ps (insert p.account_id s delta) out a rest in
    ground (arith, lookup-insert a p.account_id s delta)

-- The accounts whose balances are locked are exactly those of the legs.
pub elem-affected :
    (ps : List Posting) (out : Dict ℤ) (a : String)
    → net_delta ps [] ≡ ok out
    → elem a (sort (keys out)) ≡ is_posted a ps
elem-affected ps out a e =
    ground (arith, elem-sort a (keys out), elem-keys a out, net_delta-keys ps [] out a e)

-- What the map of accounts says is what the table says.
abbrev pub AgreesWith : Db → Dict Account → Type 0
AgreesWith db accounts =
    (id : String) (acct : Account)
    → lookup id accounts ≡ some acct
    → account_by_id id db ≡ some acct

pub resolve-cons :
    (spec : PostingSpec) (specs : List PostingSpec) (accounts all : Dict Account) (db : Db)
    (ps : List Posting)
    → resolve (spec ∷ specs) accounts db ≡ ok (all, ps)
    → (acct : Account) × (rest : List Posting) × (get_account_by_ref spec.ref db ≡ ok acct)
      × (resolve specs (insert acct.id acct accounts) db ≡ ok (all, rest))
      × (ps
          ≡ record { account_id = acct.id; amount = spec.amount; currency = spec.currency } ∷ rest)
unfolding resolve
resolve-cons spec specs accounts all db ps e =
    elim (Result-cases (get_account_by_ref spec.ref db)) [
      | inr (x, unknown) ↦ absurd (ground arith)
      | inl (acct, known) ↦ elim (Result-cases (resolve specs (insert acct.id acct accounts) db)) [
        | inr (x, later) ↦ absurd (ground arith)
        | inl ((all', rest), done) ↦ (acct, rest, known, ground arith, ground arith)
      ]
    ]

pub resolve-AgreesWith :
    (specs : List PostingSpec) (accounts all : Dict Account) (db : Db) (ps : List Posting)
    → IsConsistent db
    → AgreesWith db accounts
    → resolve specs accounts db ≡ ok (all, ps)
    → AgreesWith db all
unfolding resolve
resolve-AgreesWith [] accounts all db ps c agrees e =
    let same : (accounts ≡ all) = ground arith in rw (← same) agrees
resolve-AgreesWith (spec ∷ specs) accounts all db ps c agrees e =
    let (acct, rest, known, done, _) = resolve-cons spec specs accounts all db ps e in
    let keyed = get_account_by_ref-keyed spec.ref db acct c known in
    resolve-AgreesWith specs (insert acct.id acct accounts) all db rest c
      (λ id other found.
        ground (arith, lookup-insert id acct.id acct accounts, agrees id other, keyed))
      done

pub resolve-amounts :
    (specs : List PostingSpec) (accounts all : Dict Account) (db : Db) (ps : List Posting)
    → All (λ s. IsInt64 s.amount) specs
    → resolve specs accounts db ≡ ok (all, ps)
    → All (λ p. IsInt64 p.amount) ps
unfolding resolve
resolve-amounts [] accounts all db ps h e = let same : (ps ≡ []) = ground arith in rw same tt
resolve-amounts (spec ∷ specs) accounts all db ps h e =
    let (acct, rest, known, done, legs) = resolve-cons spec specs accounts all db ps e in
    rw legs (h.0, resolve-amounts specs (insert acct.id acct accounts) all db rest h.1 done)

-- The account of a leg is in the map.
pub legs-known :
    (accounts : Dict Account) (ps : List Posting) (a : String)
    → All (LegOk accounts) ps
    → is_posted a ps ≡ true
    → (acct : Account) × (lookup a accounts ≡ some acct)
legs-known accounts [] a h e = absurd (ground arith)
legs-known accounts (p ∷ ps) a h e = elim (Bool-cases (str_eq a p.account_id)) [
  | inl same ↦ (h.0.0, ground (arith, h.0.1))
  | inr other ↦ legs-known accounts ps a h.1 (ground arith)
]
