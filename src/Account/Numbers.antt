-- ===== src/Account/Numbers.antt =====
-- services/account/internal/domain/domain.go: account numbers with check digits, and statuses. A text
-- that is read by its bytes is the list of them.
use bank_core.Prelude.{
  ℕ, ◌+◌, ◌-◌, ◌*◌, ◌/◌, ◌%◌, ◌<◌, ◌≡◌, refl, arith, Bool, true, false, not, ◌&&◌, ◌||◌, ltb, ◌==◌,
  if◌then◌else◌, String, str_eq, List, [], ◌∷◌, ◌++◌, length, Option, none, some,
}
use bank_core.Prelude.Results.{Result, ok, err}

pub data AccountError : Type 0 where
  unknown_currency account_not_found not_owner illegal_transition bad_random_part : AccountError

abbrev pub status_active : String
status_active = "ACTIVE"

abbrev pub status_frozen : String
status_frozen = "FROZEN"

abbrev pub status_closed : String
status_closed = "CLOSED"

-- The bytes of "125".
abbrev pub bank_code : List ℕ
bank_code = 49 ∷ 50 ∷ 53 ∷ []

-- `ch < '0' || ch > '9'`, negated.
abbrev pub is_digit : ℕ → Bool
is_digit ch = not (ltb ch 48 || ltb 57 ch)

-- The loop of `mod97`: none for its -1.
unfoldable pub mod97_from : ℕ → List ℕ → Option ℕ
mod97_from rem [] = some rem
mod97_from rem (ch ∷ chs) =
    let rest = mod97_from ((rem * 10 + (ch - 48)) % 97) chs in if is_digit ch then rest else none

-- `mod97`
unfoldable pub mod97 : List ℕ → Option ℕ
mod97 digits = mod97_from 0 digits

-- `twoDigits`
unfoldable pub two_digits : ℕ → List ℕ
two_digits n = (48 + n / 10) ∷ (48 + n % 10) ∷ []

-- `strings.Trim(random13, "0123456789") != ""`, negated, with the length: trimming digits from both
-- ends leaves nothing exactly of a text of digits.
abbrev pub all_digits : List ℕ → Bool
all_digits [] = true
all_digits (ch ∷ chs) = is_digit ch && all_digits chs

-- `GenerateNumber`. Where `mod97` is -1, which no digits give, the check digits are those of 99.
unfoldable pub generate_number : List ℕ → Result AccountError (List ℕ)
generate_number random13 =
    let bban = bank_code ++ random13 in
    let rem = mod97 (bban ++ (50 ∷ 48 ∷ 51 ∷ 53 ∷ 48 ∷ 48 ∷ [])) in
    let check : ℕ = elim rem [ some r ↦ 98 - r | none ↦ 99 ] in
    if not (length random13 == 13) || not (all_digits random13)
    then err bad_random_part
    else ok (75 ∷ 90 ∷ (two_digits check ++ bban))

-- `ValidNumber`: the four first bytes go to the end, with K and Z as 20 and 35.
unfoldable pub valid_number : List ℕ → Bool
valid_number (k ∷ z ∷ c ∷ d ∷ bban) =
    if not (length bban == 16) || not (k == 75 && z == 90)
    then false
    else elim (mod97 (bban ++ (50 ∷ 48 ∷ 51 ∷ 53 ∷ c ∷ d ∷ []))) [
      | some rem ↦ rem == 1
      | none ↦ false
    ]
valid_number _ = false

-- `CanTransition`
unfoldable pub can_transition : String → String → Bool
can_transition from to =
    if str_eq from status_active
    then str_eq to status_frozen || str_eq to status_closed
    else if str_eq from status_frozen
    then str_eq to status_active || str_eq to status_closed
    else false

-- Digits leave a remainder, and the loop goes on from it.
mod97-digits :
    (rem : ℕ) (ds : List ℕ)
    → all_digits ds ≡ true
    → rem < 97
    → (m : ℕ) × (m < 97) × ((es : List ℕ) → mod97_from rem (ds ++ es) ≡ mod97_from m es)
unfolding mod97_from
mod97-digits rem [] h small = (rem, small, λ es. refl)
mod97-digits rem (d ∷ ds) h small =
    let (m, less, same) =
      mod97-digits ((rem * 10 + (d - 48)) % 97) ds (ground arith) (omega arith) in
    (m, less, λ es. ground (arith, same es))

-- The check digits make the whole number 1 modulo 97.
check_digits :
    (m : ℕ)
    → m < 97
    → (r : ℕ) × (r < 97)
      × (mod97_from m (50 ∷ 48 ∷ 51 ∷ 53 ∷ 48 ∷ 48 ∷ []) ≡ some r)
      × (mod97_from m (50 ∷ 48 ∷ 51 ∷ 53 ∷ two_digits (98 - r)) ≡ some 1)
unfolding mod97_from two_digits
check_digits m small = (
  ((((((m * 10 + 2) % 97 * 10 + 0) % 97 * 10 + 3) % 97 * 10 + 5) % 97 * 10 + 0) % 97 * 10 + 0) % 97,
  omega arith,
  ground arith,
  ground arith,
)

-- A number that GenerateNumber makes of 13 digits is one that ValidNumber accepts.
pub valid_number-generate_number :
    (random13 : List ℕ)
    → length random13 ≡ 13
    → all_digits random13 ≡ true
    → (number : List ℕ) × (generate_number random13 ≡ ok number) × (valid_number number ≡ true)
unfolding generate_number valid_number mod97
valid_number-generate_number random13 long digits =
    let bban = bank_code ++ random13 in
    let (m, small, same) = mod97-digits 0 bban (ground arith) (omega arith) in
    let (r, less, rem, one) = check_digits m small in
    (
      75 ∷ 90 ∷ (two_digits (98 - r) ++ bban),
      ground (arith, same (50 ∷ 48 ∷ 51 ∷ 53 ∷ 48 ∷ 48 ∷ []), rem),
      unfold two_digits in ground (arith, same (50 ∷ 48 ∷ 51 ∷ 53 ∷ two_digits (98 - r)), one),
    )
