-- ===== src/Prelude/Sort.antt =====
-- `sort.Strings` and `ORDER BY id`: insertion sort by a text, in the order of its code points,
-- which for ids in hexadecimal is the order of their bytes.
use Prim.Native.String.{compare}
use Prim.Native.Nat.{Ordering}
use mathlib.Core.Path.{◌≡◌, refl}
use mathlib.Core.List.{List, [], ◌∷◌}
use mathlib.Core.Bool.{Bool, true, false, ◌||◌}
use native.Mathlib.Omega.{arith}
use bank_core.Prelude.{String, str_eq, if◌then◌else◌}

abbrev pub string_le : String → String → Bool
string_le s t = elim (compare s t) [ Ordering.gt ↦ false | _ ↦ true ]

module _ {ℓ} {A : Type ℓ} (key : A → String) where
  abbrev pub insert_by : A → List A → List A
  insert_by x [] = x ∷ []
  insert_by x (y ∷ ys) = if string_le (key x) (key y) then x ∷ y ∷ ys else y ∷ insert_by x ys

  abbrev pub sort_by : List A → List A
  sort_by [] = []
  sort_by (x ∷ xs) = insert_by x (sort_by xs)

-- `sort.Strings`
abbrev pub sort : List String → List String
sort = sort_by (λ s. s)

abbrev pub elem : String → List String → Bool
elem s [] = false
elem s (t ∷ ts) = str_eq s t || elem s ts

elem-insert_by :
    (s t : String) (ts : List String) → elem s (insert_by (λ x. x) t ts) ≡ (str_eq s t || elem s ts)
elem-insert_by s t [] = refl
elem-insert_by s t (u ∷ us) = ground (arith, elem-insert_by s t us)

-- Sorting keeps the members.
pub elem-sort : (s : String) (ts : List String) → elem s (sort ts) ≡ elem s ts
elem-sort s [] = refl
elem-sort s (t ∷ ts) = ground (arith, elem-insert_by s t (sort ts), elem-sort s ts)
