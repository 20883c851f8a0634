-- ===== src/Ledger/Store/Lemmas.antt =====
-- What the statements do to what the others read.
use bank_core.Prelude.{
  str_eq_iff, Bool-cases, Option-cases, inl, inr, ◌≡◌, refl, ◌≢◌, ◌⊎◌, arith, String, str_eq, Bool,
  true, false, if◌then◌else◌, List, [], ◌∷◌, Option, none, some, All,
}
use bank_core.Prelude.Dict.{Dict, lookup}
use bank_core.Prelude.Results.{Result, ok, err, Result-cases}
use bank_core.Ledger.Store.Tables.{Fault, Db, Tx, within_tx, ◌>>=◌, lift, query, pure}
use bank_core.Ledger.Domain.{DomainError, Balance, Hold}
use bank_core.Ledger.Store.Statements.{find_row, update_rows, update, insert_hold, update_balance}
use bank_core.Prelude.Int.{pos, ltb_ℤ, leb_ℤ}

-- A row of `account_balances` with the three columns that UpdateBalance writes.
abbrev pub written : Balance → Balance → Balance
written w v = record w { balance = v.balance; held = v.held; version = v.version }

abbrev pub written? : Option Balance → Balance → Option Balance
written? none v = none
written? (some w) v = some (written w v)

pub lookup-update :
    (j k : String) (v : Balance) (d : Dict Balance)
    → lookup j (update k v d) ≡ (if str_eq j k then written? (lookup j d) v else lookup j d)
lookup-update j k v [] = ground arith
lookup-update j k v ((i, w) ∷ d) = ground (arith, lookup-update j k v d)

-- A row that is found is one of the table's.
pub find_row-All :
    {A : Type 0} (P : A → Type 0) (p : A → Bool) (xs : List A) (x : A)
    → All P xs
    → find_row p xs ≡ some x
    → P x × (p x ≡ true)
find_row-All P p [] x h e = absurd (ground arith)
find_row-All P p (y ∷ ys) x h e = elim (Bool-cases (p y)) [
  | inl hit ↦ let same : (y ≡ x) = ground arith in (rw same at h.0, rw same at hit)
  | inr miss ↦ find_row-All P p ys x h.1 (ground arith)
]

-- No id is listed twice.
abbrev pub HasUniqueIds : List Hold → Type 0
HasUniqueIds [] = Unit
HasUniqueIds (h ∷ hs) = (find_row (λ g. str_eq g.id h.id) hs ≡ none) × HasUniqueIds hs

abbrev pub set_status : String → String → List Hold → List Hold
set_status id status = update_rows (λ h. str_eq h.id id) (λ h. record h { status = status })

find-set_status :
    (j id status : String) (hs : List Hold)
    → find_row (λ g. str_eq g.id j) hs ≡ none
    → find_row (λ g. str_eq g.id j) (set_status id status hs) ≡ none
find-set_status j id status [] e = refl
find-set_status j id status (h ∷ hs) e = ground (arith, find-set_status j id status hs)

pub set_status-HasUniqueIds :
    (id status : String) (hs : List Hold) → HasUniqueIds hs → HasUniqueIds (set_status id status hs)
set_status-HasUniqueIds id status [] u = tt
set_status-HasUniqueIds id status (h ∷ hs) u =
    ground (arith, set_status-HasUniqueIds id status hs u.1, find-set_status h.id id status hs u.0)

-- A predicate that does not read the status outlives a change of it.
pub set_status-All :
    (P : Hold → Type 0) (id status : String) (hs : List Hold)
    → ((h : Hold) → P h → P (record h { status = status }))
    → All P hs
    → All P (set_status id status hs)
set_status-All P id status [] keep a = tt
set_status-All P id status (h ∷ hs) keep a = elim (Bool-cases (str_eq h.id id)) [
  | inl hit ↦ rw hit (keep h a.0, set_status-All P id status hs keep a.1)
  | inr miss ↦ rw miss (a.0, set_status-All P id status hs keep a.1)
]

-- A balance that is found after a write is the one written, or another account's.
pub found_after_update :
    (x k : String) (v w : Balance) (d : Dict Balance) (b : Balance)
    → lookup k d ≡ some w
    → lookup x (update k v d) ≡ some b
    → ((x ≡ k) × (b ≡ written w v)) ⊎ ((x ≢ k) × (lookup x d ≡ some b))
found_after_update x k v w d b found e = elim (Bool-cases (str_eq x k)) [
  | inl same ↦ inl (ground arith, ground (arith, lookup-update x k v d, str_eq_iff x k))
  | inr other ↦ inr (ground arith, ground (arith, lookup-update x k v d))
]

pub missing_after_update :
    (x k : String) (v : Balance) (d : Dict Balance)
    → lookup x (update k v d) ≡ none
    → lookup x d ≡ none
missing_after_update x k v d e = elim (Option-cases (lookup x d)) [
  | inl missing ↦ missing
  | inr (w, found) ↦ ground (arith, lookup-update x k v d)
]

-- What holds before a transaction and after its success holds after it: an error rolls back.
pub within_tx_keeps :
    {A : Type 0} (P : Db → Type 0) (m : Tx A) (db : Db)
    → P db
    → ((a : A) (db' : Db) → m db ≡ ok (a, db') → P db')
    → P (within_tx m db).1
unfolding within_tx
within_tx_keeps P m db before after = elim (Result-cases (m db)) [
  | inl ((a, db'), done) ↦ rw (done, within_tx) (after a db' done)
  | inr (x, refused) ↦ rw (refused, within_tx) before
]

-- Inversion of a transaction's steps.
pub >>=-eq-ok :
    {A B : Type 0} (m : Tx A) (f : A → Tx B) (db : Db) {b : B} {db'' : Db}
    → (m >>= f) db ≡ ok (b, db'')
    → (a : A) × (db' : Db) × (m db ≡ ok (a, db')) × (f a db' ≡ ok (b, db''))
>>=-eq-ok m f db e = elim (Result-cases (m db)) [
  | inl ((a, db'), done) ↦ (a, db', done, ground arith)
  | inr (x, refused) ↦ absurd (ground arith)
]

pub insert_hold-ok :
    (h : Hold) (db db' : Db)
    → insert_hold h db ≡ ok (tt, db')
    → (leb_ℤ h.amount (pos 0) ≡ false)
      × (find_row (λ r. str_eq r.id h.id) db.holds ≡ none)
      × (db' ≡ record db { holds = h ∷ db.holds })
unfolding insert_hold
insert_hold-ok h db db' e = ground arith

pub update_balance-ok :
    (b w : Balance) (db db' : Db)
    → lookup b.account_id db.balances ≡ some w
    → update_balance b db ≡ ok (tt, db')
    → (ltb_ℤ b.held (pos 0) ≡ false)
      × (db' ≡ record db { balances = update b.account_id b db.balances })
unfolding update_balance
update_balance-ok b w db db' found e = ground arith

-- A write keeps every row in the table.
pub lookup-update_found :
    (a k : String) (v w : Balance) (d : Dict Balance)
    → lookup a d ≡ some w
    → (u : Balance) × (lookup a (update k v d) ≡ some u)
lookup-update_found a k v w d e = elim (Bool-cases (str_eq a k)) [
  | inl same ↦ (written w v, ground (arith, lookup-update a k v d))
  | inr other ↦ (w, ground (arith, lookup-update a k v d))
]

pub lift-eq-ok :
    {A : Type 0} (r : Result DomainError A) (db : Db) {a : A} {db' : Db}
    → lift r db ≡ ok (a, db')
    → (r ≡ ok a) × (db' ≡ db)
lift-eq-ok (ok x) db e = ground arith
lift-eq-ok (err x) db e = absurd (ground arith)

pub query-eq-ok :
    {A : Type 0} (f : Db → Result Fault A) (db : Db) {a : A} {db' : Db}
    → query f db ≡ ok (a, db')
    → (f db ≡ ok a) × (db' ≡ db)
query-eq-ok f db e = elim (Result-cases (f db)) [
  | inl (x, done) ↦ ground arith
  | inr (x, refused) ↦ absurd (ground arith)
]

pub pure-eq-ok :
    {A : Type 0} (a : A) (db : Db) {b : A} {db' : Db}
    → pure a db ≡ ok (b, db')
    → (a ≡ b) × (db ≡ db')
pure-eq-ok a db e = ground arith
