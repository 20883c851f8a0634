-- ===== src/Antifraud/Rules.antt =====
-- services/antifraud/internal/domain/rules.go: the rules and their windows. A time is its nanoseconds
-- since the zero time, so that the zero time is 0.
use bank_core.Prelude.{
  ℕ, ◌+◌, ◌-◌, ◌%◌, ◌≡◌, refl, arith, Bool, true, false, not, ◌&&◌, ◌||◌, leb, ◌==◌, if◌then◌else◌,
  String, str_eq, List, [], ◌∷◌, Option, none, some,
}
use bank_core.Prelude.Int.{ℤ, pos, ◌≤ℤ◌, ltb_ℤ}
use bank_core.Prelude.Int64.{add64}
use bank_core.Prelude.Dict.{Dict, lookup}

abbrev pub kind_amount_over : String
kind_amount_over = "amount_over"

abbrev pub kind_velocity : String
kind_velocity = "velocity"

abbrev pub kind_daily_out_sum : String
kind_daily_out_sum = "daily_out_sum"

abbrev pub kind_new_beneficiary : String
kind_new_beneficiary = "new_beneficiary"

pub record Rule : Type 0 where
  pub id : String
  pub kind : String
  pub severity : String
  pub thresholds : Dict ℤ
  pub max_in_5m : ℤ

pub record Observation : Type 0 where
  pub customer_id : String
  pub transfer_id : String
  pub account_id : String
  pub amount : ℤ
  pub currency : String
  pub at : ℕ
  pub count_5m : ℤ
  pub day_out_sum : ℤ
  pub new_beneficiary : Bool

pub record Alert : Type 0 where
  pub rule_id : String
  pub severity : String
  pub detail : String

-- `limit, ok := r.Thresholds[obs.Currency]; ok && value > limit`
abbrev pub over : Rule → Observation → ℤ → Bool
over r obs value = elim (lookup obs.currency r.thresholds) [
  | none ↦ false
  | some limit ↦ ltb_ℤ limit value
]

abbrev pub raise : Rule → String → Alert
raise r detail = record { rule_id = r.id; severity = r.severity; detail = detail }

-- The `switch` of `Evaluate`.
unfoldable pub evaluate_rule : Rule → Observation → Option Alert
evaluate_rule r obs =
    if str_eq r.kind kind_amount_over
    then (if over r obs obs.amount then some (raise r "amount over threshold") else none)
    else if str_eq r.kind kind_velocity
    then (if ltb_ℤ (pos 0) r.max_in_5m && ltb_ℤ r.max_in_5m obs.count_5m
        then some (raise r "transfer velocity exceeded")
        else none)
    else if str_eq r.kind kind_daily_out_sum
    then (if over r obs obs.day_out_sum then some (raise r "daily outgoing sum exceeded") else none)
    else if str_eq r.kind kind_new_beneficiary
    then (if obs.new_beneficiary && over r obs obs.amount
        then some (raise r "large transfer to new beneficiary")
        else none)
    else none

-- `alerts = append(alerts, …)` where the rule fires.
abbrev pub with_alert : Option Alert → List Alert → List Alert
with_alert none rest = rest
with_alert (some a) rest = a ∷ rest

-- `Evaluate`
unfoldable pub evaluate : List Rule → Observation → List Alert
evaluate [] obs = []
evaluate (r ∷ rs) obs = with_alert (evaluate_rule r obs) (evaluate rs obs)

-- `5*time.Minute`
abbrev pub five_minutes : ℕ
five_minutes = 300_000_000_000

-- `AdvanceWindow`; `count` is a Go int.
unfoldable pub advance_window : ℕ → ℤ → ℕ → ℕ × ℤ
advance_window win_start count at =
    if leb (win_start + five_minutes) at || win_start == 0
    then (at, pos 1)
    else (win_start, add64 count (pos 1))

-- `24*time.Hour`
abbrev pub one_day : ℕ
one_day = 86_400_000_000_000

-- `t.UTC().Truncate(24 * time.Hour)`
abbrev pub truncate_day : ℕ → ℕ
truncate_day t = t - t % one_day

-- `AdvanceDay`
unfoldable pub advance_day : ℕ → ℤ → ℕ → ℤ → ℕ × ℤ
advance_day day sum at amount =
    let day_utc = truncate_day at in
    if not (day_utc == truncate_day day) then (day_utc, amount) else (day_utc, add64 sum amount)

-- An observation that is at least as suspicious, of the same currency.
pub record IsWorse (o o' : Observation) : Type 0 where
  pub same_currency : o'.currency ≡ o.currency
  pub amount_up : o.amount ≤ℤ o'.amount
  pub count_up : o.count_5m ≤ℤ o'.count_5m
  pub sum_up : o.day_out_sum ≤ℤ o'.day_out_sum
  pub still_new : o.new_beneficiary ≡ true → o'.new_beneficiary ≡ true

over_worse :
    (r : Rule) (o o' : Observation) (v v' : ℤ)
    → o'.currency ≡ o.currency
    → v ≤ℤ v'
    → over r o v ≡ true
    → over r o' v' ≡ true
over_worse r o o' v v' same up h = ground (arith, same)

evaluate_rule_worse :
    (r : Rule) (o o' : Observation) (a : Alert)
    → IsWorse o o'
    → evaluate_rule r o ≡ some a
    → evaluate_rule r o' ≡ some a
unfolding evaluate_rule
evaluate_rule_worse r o o' a w h = ground (
  arith,
  over_worse r o o' o.amount o'.amount w.same_currency w.amount_up,
  over_worse r o o' o.day_out_sum o'.day_out_sum w.same_currency w.sum_up,
  w.count_up,
  w.still_new,
)

-- Every alert of the first list stands in the second, in the same order.
pub data IsSublist : List Alert → List Alert → Type 0 where
  sub_none : IsSublist [] []
  sub_both : {a : Alert} {xs ys : List Alert} → IsSublist xs ys → IsSublist (a ∷ xs) (a ∷ ys)
  sub_more : {b : Alert} {xs ys : List Alert} → IsSublist xs ys → IsSublist xs (b ∷ ys)

with_alert-IsSublist :
    (x y : Option Alert) (xs ys : List Alert)
    → ((a : Alert) → x ≡ some a → y ≡ some a)
    → IsSublist xs ys
    → IsSublist (with_alert x xs) (with_alert y ys)
with_alert-IsSublist none none xs ys h sub = sub
with_alert-IsSublist none (some b) xs ys h sub = sub_more sub
with_alert-IsSublist (some a) y xs ys h sub = rw (h a refl) (sub_both sub)

-- An observation that is at least as large in amount, count and daily sum, of the same currency and
-- still to a new beneficiary where the other was, raises every alert that the other raises, in order.
pub evaluate_monotone :
    (rs : List Rule) (o o' : Observation)
    → IsWorse o o'
    → IsSublist (evaluate rs o) (evaluate rs o')
unfolding evaluate
evaluate_monotone [] o o' w = sub_none
evaluate_monotone (r ∷ rs) o o' w =
    with_alert-IsSublist (evaluate_rule r o) (evaluate_rule r o') (evaluate rs o) (evaluate rs o')
      (λ a raised. evaluate_rule_worse r o o' a w raised) (evaluate_monotone rs o o' w)
