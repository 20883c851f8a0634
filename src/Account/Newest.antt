-- ===== src/Account/Newest.antt =====
-- Proofs about the balance row after a list of deliveries in services/account/internal/adapters/kafka/consumers.go.
use bank_core.Prelude.{
  ◌≡◌, ◌≢◌, refl, arith, ◌⊎◌, inl, inr, String, str_eq, str_eq_iff, true, false, if◌then◌else◌,
  List, [], ◌∷◌, Option, none, some, Bool-cases,
}
use bank_core.Prelude.Int.{ℤ, ◌≤ℤ◌, ◌<ℤ◌, ltb_ℤ}
use bank_core.Ledger.Store.{find_row, is_some}
use bank_core.Account.Tables.{Projected, AccountDb, has_id, balance_of}
use bank_core.Account.Projection.{deliver, deliver_all, newer, balance_of-deliver}

-- Whether a list has an item.
abbrev pub In : Projected → List Projected → Type 0
In b [] = ⊥
In b (c ∷ cs) = (b ≡ c) ⊎ In b cs

-- What the deliveries make of an account's row.
abbrev pub folded : String → List Projected → Option Projected → Option Projected
folded a [] o = o
folded a (b ∷ bs) o = folded a bs (if str_eq b.account_id a then newer b o else o)

pub balance_of-deliver_all :
    (bs : List Projected) (a : String) (db : AccountDb)
    → a ≢ ""
    → is_some (find_row (has_id a) db.accounts) ≡ true
    → balance_of a (deliver_all bs db) ≡ folded a bs (balance_of a db)
balance_of-deliver_all [] a db given there = refl
balance_of-deliver_all (b ∷ bs) a db given there =
    let (row, accounts) = balance_of-deliver b a db given there in
    let ih = balance_of-deliver_all bs a (deliver b db) given (ground (arith, there, accounts)) in
    ground (arith, ih, row)

-- The row is the newest of the events and of what was there before.
abbrev pub Newest : String → List Projected → Projected → Projected → Type 0
Newest a bs r s =
    ((s ≡ r) ⊎ (In s bs × (s.account_id ≡ a) × (r.version <ℤ s.version)))
    × (r.version ≤ℤ s.version)
    × ((b : Projected) → In b bs → b.account_id ≡ a → b.version ≤ℤ s.version)

stale-le : (u v : ℤ) → ltb_ℤ u v ≡ false → v ≤ℤ u
stale-le u v h = ground arith

newer-lt : (u v : ℤ) → ltb_ℤ u v ≡ true → u <ℤ v
newer-lt u v h = ground arith

le_trans : (u v w : ℤ) → u ≤ℤ v → v ≤ℤ w → u ≤ℤ w
le_trans u v w h k = ground arith

lt_le_trans : (u v w : ℤ) → u <ℤ v → v ≤ℤ w → u <ℤ w
lt_le_trans u v w h k = ground arith

-- An event in front that does not become the row.
Newest-kept :
    (a : String) (b : Projected) (bs : List Projected) (r s : Projected)
    → (b.account_id ≡ a → b.version ≤ℤ r.version)
    → Newest a bs r s
    → Newest a (b ∷ bs) r s
Newest-kept a b bs r s stale (origin, least, all) = (
  elim origin [ inl same ↦ inl same | inr (i, named, lt) ↦ inr (inr i, named, lt) ],
  least,
  λ c i of_a. elim i [
    | inl same ↦ le_trans c.version r.version s.version (ground (arith, stale, same, of_a)) least
    | inr i' ↦ all c i' of_a
  ],
)

-- An event in front that becomes the row.
Newest-replaced :
    (a : String) (b : Projected) (bs : List Projected) (r s : Projected)
    → b.account_id ≡ a
    → r.version <ℤ b.version
    → Newest a bs b s
    → Newest a (b ∷ bs) r s
Newest-replaced a b bs r s of_a lt (origin, least, all) = (
  inr (elim origin [
    | inl same ↦
        (inl same, ground (arith, same, of_a), lt_le_trans r.version b.version s.version lt least)
    | inr (i, named, _) ↦ (inr i, named, lt_le_trans r.version b.version s.version lt least)
  ]),
  ground (arith, lt, least),
  λ c i named. elim i [ inl same ↦ ground (arith, same, least) | inr i' ↦ all c i' named ],
)

pub folded-Newest :
    (bs : List Projected) (a : String) (r : Projected)
    → (s : Projected) × (folded a bs (some r) ≡ some s) × Newest a bs r s
folded-Newest [] a r = (r, refl, (inl refl, ground arith, λ b none_there. absurd none_there))
folded-Newest (b ∷ bs) a r = elim (Bool-cases (str_eq b.account_id a)) [
  | inr other ↦
      let (s, e, newest) = folded-Newest bs a r in
      (
        s,
        ground (arith, other, e),
        Newest-kept a b bs r s (λ of_a. absurd (ground (arith, other, of_a))) newest,
      )
  | inl hit ↦ elim (Bool-cases (ltb_ℤ r.version b.version)) [
    | inr stale ↦
        let (s, e, newest) = folded-Newest bs a r in
        (
          s,
          ground (arith, hit, stale, e),
          Newest-kept a b bs r s (λ _. stale-le r.version b.version stale) newest,
        )
    | inl is_newer ↦
        let (s, e, newest) = folded-Newest bs a b in
        (
          s,
          ground (arith, hit, is_newer, e),
          Newest-replaced a b bs r s ((str_eq_iff b.account_id a).0 hit)
              (newer-lt r.version b.version is_newer) newest,
        )
  ]
]

-- From no row: there is none as long as no event is of the account.
pub folded-none :
    (bs : List Projected) (a : String)
    → ((folded a bs none ≡ none) × ((b : Projected) → In b bs → b.account_id ≢ a))
      ⊎ ((s : Projected) × (folded a bs none ≡ some s)
          × (In s bs × (s.account_id ≡ a))
          × ((b : Projected) → In b bs → b.account_id ≡ a → b.version ≤ℤ s.version))
folded-none [] a = inl (refl, λ b none_there. absurd none_there)
folded-none (b ∷ bs) a = elim (Bool-cases (str_eq b.account_id a)) [
  | inr other ↦ elim (folded-none bs a) [
    | inl (e, empty) ↦ inl (
      ground (arith, other, e),
      λ c i of_a. elim i [
        | inl same ↦ ground (arith, same, of_a, other)
        | inr i' ↦ empty c i' of_a
      ],
    )
    | inr (s, e, (i, named), all) ↦ inr (
      s,
      ground (arith, other, e),
      (inr i, named),
      λ c j of_a. elim j [
        | inl same ↦ absurd (ground (arith, same, of_a, other))
        | inr j' ↦ all c j' of_a
      ],
    )
  ]
  | inl hit ↦
      let of_a = (str_eq_iff b.account_id a).0 hit in
      let (s, e, (origin, least, all)) = folded-Newest bs a b in
      inr (
        s,
        ground (arith, hit, e),
        elim origin [
          | inl same ↦ (inl same, ground (arith, same, of_a))
          | inr (i, named, _) ↦ (inr i, named)
        ],
        λ c j named. elim j [ inl same ↦ ground (arith, same, least) | inr j' ↦ all c j' named ],
      )
]
