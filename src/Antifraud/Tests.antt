-- ===== src/Antifraud/Tests.antt =====
-- Instances of the theorems on the antifraud rules.
use bank_core.Antifraud.Windows.{windows, windows_count}
use bank_core.Prelude.{◌≡◌}
use bank_core.Prelude.{refl, arith, true, List, [], ◌∷◌}
use bank_core.Prelude.Int.{ℤ, pos}
use bank_core.Antifraud.Rules.{Rule, Observation, IsWorse, IsSublist, evaluate, evaluate_monotone}

abbrev rules : List Rule
rules =
    record {
      id = "r1";
      kind = "amount_over";
      severity = "HIGH";
      thresholds = ("KZT", pos 500) ∷ [];
      max_in_5m = pos 0;
    }
    ∷ record {
      id = "r2";
      kind = "velocity";
      severity = "MEDIUM";
      thresholds = [];
      max_in_5m = pos 3;
    }
    ∷ []

abbrev observed : ℤ → ℤ → Observation
observed amount count = record {
  customer_id = "u1";
  transfer_id = "t1";
  account_id = "a1";
  amount = amount;
  currency = "KZT";
  at = 9;
  count_5m = count;
  day_out_sum = amount;
  new_beneficiary = true;
}

observed-IsWorse : IsWorse (observed (pos 600) (pos 1)) (observed (pos 700) (pos 4))
observed-IsWorse = record {
  same_currency = refl;
  amount_up = ground arith;
  count_up = ground arith;
  sum_up = ground arith;
  still_new = λ h. h;
}

evaluate_monotone_example :
    IsSublist
      (evaluate rules (observed (pos 600) (pos 1)))
      (evaluate rules (observed (pos 700) (pos 4)))
evaluate_monotone_example =
    evaluate_monotone rules (observed (pos 600) (pos 1)) (observed (pos 700) (pos 4))
      observed-IsWorse

windows_count_example :
    (windows 5 (pos 1) (6 ∷ 7 ∷ []) ≡ (5, pos 3))
    × (windows 5 (pos 1) (6 ∷ 7 ∷ 300_000_000_005 ∷ 300_000_000_009 ∷ [])
        ≡ (300_000_000_005, pos 2))
windows_count_example =
    windows_count 5 1 300_000_000_005 (6 ∷ 7 ∷ []) (300_000_000_009 ∷ []) (ground arith)
      (omega arith, (omega arith, tt)) (omega arith) (omega arith) (omega arith, tt) (omega arith)
