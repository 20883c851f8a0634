-- ===== src/Ledger/Domain/Entry.antt =====
-- Proofs about ValidateEntry of services/ledger/internal/domain/domain.go.
use bank_core.Prelude.{
  ◌≤◌, ◌≡◌, ◌≢◌, ◌⊎◌, inl, inr, refl, arith, true, String, str_eq, if◌then◌else◌, List, [], ◌∷◌,
  ◌++◌, some, length, All, Option-cases, Bool-cases,
}
use bank_core.Prelude.Int.{ℤ, pos, ◌+ℤ◌, int_laws}
use bank_core.Prelude.Int64.{IsInt64, wrap}
use bank_core.Prelude.Dict.{
  Dict, lookup, insert, lookup-insert, HasUniqueKeys, insert-HasUniqueKeys,
}
use bank_core.Prelude.Results.{ok, err, Result-cases}
use bank_core.Ledger.Domain.{
  DomainError, overflow, Account, Posting, type_customer, status_active, add_checked, get,
  check_leg, validate_legs, all_zero, validate_entry,
}

-- The sum of the legs in one currency, as an integer with no range.
abbrev pub sum_of : String → List Posting → ℤ
sum_of c [] = pos 0
sum_of c (p ∷ ps) = (if str_eq c p.currency then p.amount else pos 0) +ℤ sum_of c ps

pub add_checked-ok :
    (a b : ℤ) {s : ℤ} → IsInt64 a → IsInt64 b → add_checked a b ≡ ok s → (s ≡ a +ℤ b) × IsInt64 s
unfolding add_checked wrap ◌+ℤ◌
add_checked-ok a b ha hb e = ground arith

pub add_checked-err :
    (a b : ℤ) {e : DomainError}
    → IsInt64 a
    → IsInt64 b
    → add_checked a b ≡ err e
    → ¬ (IsInt64 (a +ℤ b))
unfolding add_checked wrap ◌+ℤ◌
add_checked-err a b ha hb e h = ground arith

-- What a leg must be: its account is known, its amount is not 0, its currency is one of the two and
-- the account's, and a customer account is active.
abbrev pub LegOk : Dict Account → Posting → Type 0
LegOk accounts p =
    (acct : Account) × (lookup p.account_id accounts ≡ some acct)
    × (p.amount ≢ pos 0)
    × ((p.currency ≡ "KZT") ⊎ (p.currency ≡ "USD"))
    × (p.currency ≡ acct.currency)
    × (acct.type ≡ type_customer → acct.status ≡ status_active)

check_leg-LegOk :
    (accounts : Dict Account) (p : Posting)
    → check_leg (lookup p.account_id accounts) p ≡ ok tt
    → LegOk accounts p
unfolding check_leg
check_leg-LegOk accounts p e = elim (Option-cases (lookup p.account_id accounts)) [
  | inl missing ↦ ground arith
  | inr (acct, found) ↦ (acct, found, ground arith, ground arith, ground arith, ground arith)
]

-- What one leg of the loop has done where it goes on.
validate_legs-cons :
    (accounts : Dict Account) (p : Posting) (ps : List Posting) (sums out : Dict ℤ)
    → validate_legs accounts (p ∷ ps) sums ≡ ok out
    → (s : ℤ) × (check_leg (lookup p.account_id accounts) p ≡ ok tt)
      × (add_checked (get p.currency sums) p.amount ≡ ok s)
      × (validate_legs accounts ps (insert p.currency s sums) ≡ ok out)
unfolding validate_legs
validate_legs-cons accounts p ps sums out e =
    elim (Result-cases (check_leg (lookup p.account_id accounts) p)) [
      | inl (_, c) ↦ elim (Result-cases (add_checked (get p.currency sums) p.amount)) [
        | inl (s, a) ↦ (s, cc, a, ground arith)
        | inr (x, a) ↦ absurd (ground arith)
      ]
      | inr (x, c) ↦ absurd (ground arith)
    ]

get-insert :
    (c k : String) (s : ℤ) (sums : Dict ℤ)
    → get c (insert k s sums) ≡ (if str_eq c k then s else get c sums)
get-insert c k s sums = ground (arith, lookup-insert c k s sums)

-- The sums are exact: each is the old one and the legs in its currency.
validate_legs-sums :
    (accounts : Dict Account) (ps : List Posting) (sums out : Dict ℤ)
    → All (λ p. IsInt64 p.amount) ps
    → ((c : String) → IsInt64 (get c sums))
    → validate_legs accounts ps sums ≡ ok out
    → (c : String) → get c out ≡ get c sums +ℤ sum_of c ps
unfolding validate_legs
validate_legs-sums accounts [] sums out hp hs e c =
    let same : (sums ≡ out) = ground arith in rw (← same) (omega int_laws)
validate_legs-sums accounts (p ∷ ps) sums out hp hs e c =
    let (s, _, added, rest) = validate_legs-cons accounts p ps sums out e in
    let exact = add_checked-ok (get p.currency sums) p.amount (hs p.currency) hp.0 added in
    let keep : ((k : String) → IsInt64 (get k (insert p.currency s sums))) =
      λ k. ground (arith, get-insert k p.currency s sums, hs k, exact) in
    let ih = validate_legs-sums accounts ps (insert p.currency s sums) out hp.1 keep rest c in
    elim (Bool-cases (str_eq c p.currency)) [
      | inl same ↦ grind (int_laws, ih, exact, get-insert c p.currency s sums)
      | inr other ↦ grind (int_laws, ih, exact, get-insert c p.currency s sums)
    ]

validate_legs-LegOk :
    (accounts : Dict Account) (ps : List Posting) (sums out : Dict ℤ)
    → validate_legs accounts ps sums ≡ ok out
    → All (LegOk accounts) ps
validate_legs-LegOk accounts [] sums out e = tt
validate_legs-LegOk accounts (p ∷ ps) sums out e =
    let (s, checked, _, rest) = validate_legs-cons accounts p ps sums out e in
    (
      check_leg-LegOk accounts p checked,
      validate_legs-LegOk accounts ps (insert p.currency s sums) out rest,
    )

all_zero-get : (d : Dict ℤ) (c : String) → all_zero d ≡ true → get c d ≡ pos 0
all_zero-get [] c h = refl
all_zero-get ((k, s) ∷ d) c h = ground (arith, all_zero-get d c)

get-all_zero : (d : Dict ℤ) → HasUniqueKeys d → ((c : String) → get c d ≡ pos 0) → all_zero d ≡ true
get-all_zero [] u h = refl
get-all_zero ((k, s) ∷ d) u h =
    let tail : ((c : String) → get c d ≡ pos 0) = λ c. ground (arith, h c, u.0) in
    ground (arith, h k, get-all_zero d u.1 tail)

validate_legs-HasUniqueKeys :
    (accounts : Dict Account) (ps : List Posting) (sums out : Dict ℤ)
    → validate_legs accounts ps sums ≡ ok out
    → HasUniqueKeys sums
    → HasUniqueKeys out
unfolding validate_legs
validate_legs-HasUniqueKeys accounts [] sums out e u =
    let same : (sums ≡ out) = ground arith in rw (← same) u
validate_legs-HasUniqueKeys accounts (p ∷ ps) sums out e u =
    let (s, _, _, rest) = validate_legs-cons accounts p ps sums out e in
    validate_legs-HasUniqueKeys accounts ps (insert p.currency s sums) out rest
      (insert-HasUniqueKeys p.currency s sums u)

-- What double entry asks of the legs of one entry.
pub record IsDoubleEntry (accounts : Dict Account) (ps : List Posting) : Type 0 where
  pub two_legs : 2 ≤ length ps
  pub legs : All (LegOk accounts) ps
  pub zero_sum : (c : String) → sum_of c ps ≡ pos 0

-- An entry of int64 amounts that ValidateEntry accepts has at least two legs, each on a known
-- account in that account's currency, none zero and none on a customer account that is not active,
-- and in every currency its amounts sum to zero as integers, with no wrap-around.
pub validate_entry-IsDoubleEntry :
    (ps : List Posting) (accounts : Dict Account)
    → All (λ p. IsInt64 p.amount) ps
    → validate_entry ps accounts ≡ ok tt
    → IsDoubleEntry accounts ps
unfolding validate_entry
validate_entry-IsDoubleEntry ps accounts hp e = elim (Result-cases (validate_legs accounts ps [])) [
  | inl (out, run) ↦ record {
    two_legs = ground arith;
    legs = validate_legs-LegOk accounts ps [] out run;
    zero_sum = λ c.
        let zero : (all_zero out ≡ true) = ground arith in
        let exact = validate_legs-sums accounts ps [] out hp (λ k. ground arith) run c in
        grind (int_laws, exact, all_zero-get out c zero);
  }
  | inr (x, run) ↦ absurd (ground arith)
]

check_leg_complete :
    (accounts : Dict Account) (p : Posting)
    → LegOk accounts p
    → check_leg (lookup p.account_id accounts) p ≡ ok tt
unfolding check_leg
check_leg_complete accounts p (acct, found, nonzero, known, same, live) = rw found (ground arith)

add_checked-cases :
    (a b : ℤ) → ((s : ℤ) × (add_checked a b ≡ ok s)) ⊎ (add_checked a b ≡ err overflow)
unfolding add_checked
add_checked-cases a b = elim (Result-cases (add_checked a b)) [
  | inl (s, e) ↦ inl (s, e)
  | inr (x, e) ↦ inr (ground arith)
]

-- A leg at which the running sum of its currency, `sums` before the first, leaves the int64 range.
abbrev pub LeavesInt64 : Dict ℤ → List Posting → Type 0
LeavesInt64 sums ps =
    (before : List Posting) × (p : Posting) × (after : List Posting) × (ps ≡ before ++ p ∷ after)
    × (¬ (IsInt64 ((get p.currency sums +ℤ sum_of p.currency before) +ℤ p.amount)))

LeavesInt64-here :
    (p : Posting) (ps : List Posting) (sums : Dict ℤ)
    → ¬ (IsInt64 (get p.currency sums +ℤ p.amount))
    → LeavesInt64 sums (p ∷ ps)
LeavesInt64-here p ps sums out =
    let same : ((get p.currency sums +ℤ pos 0) +ℤ p.amount ≡ get p.currency sums +ℤ p.amount) =
      omega int_laws in
    ([], p, ps, refl, rw same out)

LeavesInt64-cons :
    (q : Posting) (ps : List Posting) (sums : Dict ℤ) (s : ℤ)
    → s ≡ get q.currency sums +ℤ q.amount
    → LeavesInt64 (insert q.currency s sums) ps
    → LeavesInt64 sums (q ∷ ps)
LeavesInt64-cons q ps sums s exact (before, p, after, split, out) =
    let same : ((get p.currency sums +ℤ sum_of p.currency (q ∷ before)) +ℤ p.amount
        ≡ (get p.currency (insert q.currency s sums) +ℤ sum_of p.currency before) +ℤ p.amount) =
      elim (Bool-cases (str_eq p.currency q.currency)) [
        | inl e ↦ grind (int_laws, exact, get-insert p.currency q.currency s sums)
        | inr e ↦ grind (int_laws, exact, get-insert p.currency q.currency s sums)
      ] in
    (q ∷ before, p, after, ground (arith, split), rw same out)

validate_legs-cases :
    (accounts : Dict Account) (ps : List Posting) (sums : Dict ℤ)
    → All (LegOk accounts) ps
    → All (λ p. IsInt64 p.amount) ps
    → ((c : String) → IsInt64 (get c sums))
    → ((out : Dict ℤ) × (validate_legs accounts ps sums ≡ ok out))
      ⊎ ((validate_legs accounts ps sums ≡ err overflow) × LeavesInt64 sums ps)
unfolding validate_legs
validate_legs-cases accounts [] sums h hp hs = inl (sums, refl)
validate_legs-cases accounts (p ∷ ps) sums h hp hs =
    elim (add_checked-cases (get p.currency sums) p.amount) [
      | inl (s, e) ↦
          let (exact, range) =
            add_checked-ok (get p.currency sums) p.amount (hs p.currency) hp.0 e in
          let keep : ((k : String) → IsInt64 (get k (insert p.currency s sums))) =
            λ k. ground (arith, get-insert k p.currency s sums, hs k, range) in
          rw (check_leg_complete accounts p h.0, e)
            (elim (validate_legs-cases accounts ps (insert p.currency s sums) h.1 hp.1 keep) [
              | inl run ↦ inl run
              | inr (over, out) ↦ inr (over, LeavesInt64-cons p ps sums s exact out)
            ])
      | inr e ↦ inr (
        ground (arith, check_leg_complete accounts p h.0),
        LeavesInt64-here p ps sums
            (add_checked-err (get p.currency sums) p.amount (hs p.currency) hp.0 e),
      )
    ]

-- A proper entry of int64 amounts is accepted, unless at one of its legs the sum of the amounts in the
-- leg's currency up to it leaves the int64 range; then the error is the overflow.
pub validate_entry_complete :
    (ps : List Posting) (accounts : Dict Account)
    → All (λ p. IsInt64 p.amount) ps
    → IsDoubleEntry accounts ps
    → (validate_entry ps accounts ≡ ok tt)
      ⊎ ((validate_entry ps accounts ≡ err overflow) × LeavesInt64 [] ps)
unfolding validate_entry
validate_entry_complete ps accounts hp h =
    elim (validate_legs-cases accounts ps [] h.legs hp (λ k. ground arith)) [
      | inl (out, run) ↦
          let zero : ((c : String) → get c out ≡ pos 0) = λ c.
            let exact = validate_legs-sums accounts ps [] out hp (λ k. ground arith) run c in
            grind (int_laws, exact, h.zero_sum c) in
          let unique = validate_legs-HasUniqueKeys accounts ps [] out run tt in
          inl (ground (arith, h.two_legs, get-all_zero out unique zero))
      | inr (over, out) ↦ inr (ground (arith, h.two_legs), out)
    ]
