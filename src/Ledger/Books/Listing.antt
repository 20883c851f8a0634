-- ===== src/Ledger/Books/Listing.antt =====
-- Proofs about the list of holds that sweep of services/ledger/internal/app/sweeper.go works through: which
-- holds it has, each once, and what its loop makes of a row.
use bank_core.Prelude.{
  ℕ, zero, suc, ◌+◌, ◌≤◌, ◌≡◌, refl, inl, inr, arith, String, str_eq, str_eq_iff, Bool, false, ◌&&◌,
  ◌||◌, if◌then◌else◌, ltb, List, [], ◌∷◌, none, some, All, map, length, Bool-cases,
}
use bank_core.Ledger.Domain.{Hold, hold_active, hold_released}
use bank_core.Ledger.Store.{find_row}
use bank_core.Ledger.Store.Lemmas.{HasUniqueIds, set_status}
use bank_core.Ledger.Service.{expired, by_expiry, insert_by_expiry, limited}

abbrev pub released : Hold → Hold
released h = record h { status = hold_released }

-- Whether a list has a hold with an id.
abbrev pub has : String → List Hold → Bool
has x [] = false
has x (g ∷ gs) = str_eq g.id x || has x gs

abbrev pub IsDistinct : List Hold → Type 0
IsDistinct [] = Unit
IsDistinct (g ∷ gs) = (has g.id gs ≡ false) × IsDistinct gs

has-find_row :
    (x : String) (hs : List Hold) → find_row (λ g. str_eq g.id x) hs ≡ none → has x hs ≡ false
has-find_row x [] e = refl
has-find_row x (h ∷ hs) e = ground (arith, has-find_row x hs)

pub HasUniqueIds-IsDistinct : (hs : List Hold) → HasUniqueIds hs → IsDistinct hs
HasUniqueIds-IsDistinct [] u = tt
HasUniqueIds-IsDistinct (h ∷ hs) u = (has-find_row h.id hs u.0, HasUniqueIds-IsDistinct hs u.1)

-- What the loop does to one row: each hold in the list that has its id releases it.
abbrev pub release_one : List Hold → Hold → Hold
release_one [] r = r
release_one (h ∷ hs) r = release_one hs (if str_eq r.id h.id then released r else r)

release_one-has :
    (hs : List Hold) (r : Hold) → release_one hs r ≡ (if has r.id hs then released r else r)
release_one-has [] r = refl
release_one-has (h ∷ hs) r =
    let sides : (str_eq h.id r.id ≡ str_eq r.id h.id) =
      ground (arith, str_eq_iff h.id r.id, str_eq_iff r.id h.id) in
    elim (Bool-cases (str_eq r.id h.id)) [
      | inl hit ↦ rw (sides, hit) (ground (arith, release_one-has hs (released r)))
      | inr miss ↦ rw (sides, miss) (release_one-has hs r)
    ]

pub map-set_status :
    (hs : List Hold) (h : Hold) (rows : List Hold)
    → map (release_one hs) (set_status h.id hold_released rows) ≡ map (release_one (h ∷ hs)) rows
map-set_status hs h [] = refl
map-set_status hs h (r ∷ rows) = ground (arith, map-set_status hs h rows)

pub map-release_nothing : (rows : List Hold) → map (release_one []) rows ≡ rows
map-release_nothing [] = refl
map-release_nothing (r ∷ rows) = ground (arith, map-release_nothing rows)

-- The row of the table that a listed hold is, and that it is active.
abbrev pub Listed : List Hold → Hold → Type 0
Listed rows g = (find_row (λ r. str_eq r.id g.id) rows ≡ some g) × (g.status ≡ hold_active)

-- What the sweep is to make of a row.
abbrev pub swept : ℕ → Hold → Hold
swept now h = if str_eq h.status hold_active && ltb h.expires_at now then released h else h

has-insert :
    (x : String) (h : Hold) (gs : List Hold)
    → has x (insert_by_expiry h gs) ≡ (str_eq h.id x || has x gs)
has-insert x h [] = refl
has-insert x h (g ∷ gs) = ground (arith, has-insert x h gs)

has-by_expiry : (x : String) (hs : List Hold) → has x (by_expiry hs) ≡ has x hs
has-by_expiry x [] = refl
has-by_expiry x (h ∷ hs) = ground (arith, has-by_expiry x hs, has-insert x h (by_expiry hs))

insert-IsDistinct :
    (h : Hold) (gs : List Hold)
    → has h.id gs ≡ false
    → IsDistinct gs
    → IsDistinct (insert_by_expiry h gs)
insert-IsDistinct h [] new d = (refl, tt)
insert-IsDistinct h (g ∷ gs) new d =
    let ih = insert-IsDistinct h gs (ground arith) d.1 in
    let sides : (str_eq h.id g.id ≡ str_eq g.id h.id) =
      ground (arith, str_eq_iff h.id g.id, str_eq_iff g.id h.id) in
    elim (Bool-cases (ltb g.expires_at h.expires_at)) [
      | inl later ↦ rw later (ground (arith, has-insert g.id h gs, sides, d.0), ih)
      | inr sooner ↦ rw sooner (new, d)
    ]

pub by_expiry-IsDistinct : (hs : List Hold) → IsDistinct hs → IsDistinct (by_expiry hs)
by_expiry-IsDistinct [] d = tt
by_expiry-IsDistinct (h ∷ hs) d =
    insert-IsDistinct h (by_expiry hs) (ground (arith, has-by_expiry h.id hs, d.0))
      (by_expiry-IsDistinct hs d.1)

has-expired :
    (x : String) (now : ℕ) (hs : List Hold) → has x hs ≡ false → has x (expired now hs) ≡ false
has-expired x now [] e = refl
has-expired x now (h ∷ hs) e = ground (arith, has-expired x now hs)

pub expired-IsDistinct : (now : ℕ) (hs : List Hold) → IsDistinct hs → IsDistinct (expired now hs)
expired-IsDistinct now [] d = tt
expired-IsDistinct now (h ∷ hs) d =
    let ih = expired-IsDistinct now hs d.1 in
    elim (Bool-cases (str_eq h.status hold_active && ltb h.expires_at now)) [
      | inl due ↦ rw due (has-expired h.id now hs d.0, ih)
      | inr not_due ↦ rw not_due ih
    ]

insert-All :
    (P : Hold → Type 0) (h : Hold) (gs : List Hold) → P h → All P gs → All P (insert_by_expiry h gs)
insert-All P h [] p a = (p, tt)
insert-All P h (g ∷ gs) p a = elim (Bool-cases (ltb g.expires_at h.expires_at)) [
  | inl later ↦ rw later (a.0, insert-All P h gs p a.1)
  | inr sooner ↦ rw sooner (p, a)
]

pub by_expiry-All : (P : Hold → Type 0) (hs : List Hold) → All P hs → All P (by_expiry hs)
by_expiry-All P [] a = tt
by_expiry-All P (h ∷ hs) a = insert-All P h (by_expiry hs) a.0 (by_expiry-All P hs a.1)

-- Each row of a table without repeated ids is found by its id.
found-cons :
    (h : Hold) (hs gs : List Hold)
    → has h.id gs ≡ false
    → All (λ g. find_row (λ r. str_eq r.id g.id) hs ≡ some g) gs
    → All (λ g. find_row (λ r. str_eq r.id g.id) (h ∷ hs) ≡ some g) gs
found-cons h hs [] new a = tt
found-cons h hs (g ∷ gs) new a =
    let sides : (str_eq h.id g.id ≡ str_eq g.id h.id) =
      ground (arith, str_eq_iff h.id g.id, str_eq_iff g.id h.id) in
    (ground (arith, sides, a.0), found-cons h hs gs (ground arith) a.1)

pub rows-found :
    (hs : List Hold) → IsDistinct hs → All (λ g. find_row (λ r. str_eq r.id g.id) hs ≡ some g) hs
rows-found [] d = tt
rows-found (h ∷ hs) d =
    (ground (arith, str_eq_iff h.id h.id), found-cons h hs hs d.0 (rows-found hs d.1))

pub expired-Listed :
    (now : ℕ) (rows hs : List Hold)
    → All (λ g. find_row (λ r. str_eq r.id g.id) rows ≡ some g) hs
    → All (Listed rows) (expired now hs)
expired-Listed now rows [] a = tt
expired-Listed now rows (h ∷ hs) a =
    let ih = expired-Listed now rows hs a.1 in
    elim (Bool-cases (str_eq h.status hold_active && ltb h.expires_at now)) [
      | inl due ↦
          let active : (h.status ≡ hold_active) =
            ground (arith, due, str_eq_iff h.status hold_active) in
          rw due ((a.0, active), ih)
      | inr not_due ↦ rw not_due ih
    ]

-- Releasing what is due is the sweep of each row.
pub release_due :
    (now : ℕ) (gs hs : List Hold)
    → IsDistinct hs
    → All (λ h. has h.id gs ≡ (str_eq h.status hold_active && ltb h.expires_at now)) hs
    → map (release_one gs) hs ≡ map (swept now) hs
release_due now gs [] d a = refl
release_due now gs (h ∷ hs) d a =
    ground (arith, release_one-has gs h, a.0, release_due now gs hs d.1 a.1)

has-expired-cons :
    (now : ℕ) (h : Hold) (gs hs : List Hold)
    → has h.id gs ≡ false
    → All
        (λ g. has g.id (expired now hs) ≡ (str_eq g.status hold_active && ltb g.expires_at now))
        gs
    → All
        (λ g.
          has g.id (expired now (h ∷ hs)) ≡ (str_eq g.status hold_active && ltb g.expires_at now))
        gs
has-expired-cons now h [] hs new a = tt
has-expired-cons now h (g ∷ gs) hs new a =
    let sides : (str_eq h.id g.id ≡ str_eq g.id h.id) =
      ground (arith, str_eq_iff h.id g.id, str_eq_iff g.id h.id) in
    (ground (arith, sides, a.0), has-expired-cons now h gs hs (ground arith) a.1)

pub has-expired-due :
    (now : ℕ) (hs : List Hold)
    → IsDistinct hs
    → All
        (λ g. has g.id (expired now hs) ≡ (str_eq g.status hold_active && ltb g.expires_at now))
        hs
has-expired-due now [] d = tt
has-expired-due now (h ∷ hs) d = (
  ground (arith, has-expired h.id now hs d.0, str_eq_iff h.id h.id),
  has-expired-cons now h hs hs d.0 (has-expired-due now hs d.1),
)

pub has-due :
    (now : ℕ) (gs hs : List Hold)
    → All (λ g. has g.id gs ≡ (str_eq g.status hold_active && ltb g.expires_at now)) hs
    → All (λ g. has g.id (by_expiry gs) ≡ (str_eq g.status hold_active && ltb g.expires_at now)) hs
has-due now gs [] a = tt
has-due now gs (h ∷ hs) a = (ground (arith, has-by_expiry h.id gs, a.0), has-due now gs hs a.1)

length-insert : (h : Hold) (gs : List Hold) → length (insert_by_expiry h gs) ≡ length gs + 1
length-insert h [] = refl
length-insert h (g ∷ gs) = ground (arith, length-insert h gs)

pub length-by_expiry : (hs : List Hold) → length (by_expiry hs) ≡ length hs
length-by_expiry [] = refl
length-by_expiry (h ∷ hs) = ground (arith, length-by_expiry hs, length-insert h (by_expiry hs))

pub limited_all : (n : ℕ) (gs : List Hold) → length gs ≤ n → limited n gs ≡ gs
limited_all n [] e = refl
limited_all zero (g ∷ gs) e = absurd (ground arith)
limited_all (suc n) (g ∷ gs) e = ground (arith, limited_all n gs)
