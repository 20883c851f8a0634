-- ===== src/Prelude/Text.antt =====
-- Equality of texts, as a decision and as a test. Go strings are compared and ordered, and are
-- taken apart only where the source does it (account numbers).
pub use Prim.Native.String.{String}
use text.Mathlib.Text.{◌==◌}
use text.Mathlib.TextEquality.{eq_iff}
use mathlib.Core.Path.{◌≡◌, refl}
use mathlib.Core.Logic.{◌↔◌, ◌≢◌}
use mathlib.Core.Bool.{Bool, true, false}
use native.Mathlib.Omega.{arith}

dec_of : (b : Bool) {P : Type 0} → (b ≡ true → P) → (P → b ≡ true) → Dec P
dec_of true f g = yes (f refl)
dec_of false f g = no (λ p. cc (g p))

unfoldable pub string_discrete : Discrete String
unfolding dec_of
string_discrete s t = dec_of (s == t) (eq_iff s t).0 (eq_iff s t).1

-- `s == t` on strings.
abbrev pub str_eq : String → String → Bool
str_eq s t = elim (string_discrete s t) [ yes _ ↦ true | no _ ↦ false ]

pub str_eq_iff : (s t : String) → (str_eq s t ≡ true) ↔ (s ≡ t)
str_eq_iff s t = ground arith

-- Two texts that the test tells apart; at literals the premise is `refl`.
pub ne_of_test : (s t : String) → str_eq s t ≡ false → s ≢ t
ne_of_test s t h e = ground arith
