-- ===== src/Antifraud/Scorer.antt =====
-- services/antifraud/internal/app/scorer.go with the statements of
-- services/antifraud/internal/adapters/postgres/db/queries.sql.go. A time is its nanoseconds since the zero
-- time. The JSON parser is a parameter, and the ids that are drawn for alerts are an argument.
use bank_core.Prelude.{
  ℕ, suc, ◌-◌, ◌%◌, ◌^◌, ◌==◌, String, str_eq, Bool, true, false, not, ◌&&◌, ltb, if◌then◌else◌,
  List, [], ◌∷◌, ◌++◌, Option, none, some,
}
use bank_core.Prelude.Int.{ℤ, pos, negsuc}
use bank_core.Prelude.Dict.{Dict}
use bank_core.Prelude.Sort.{sort_by}
use bank_core.Prelude.Results.{Result, ok, err}
use bank_core.Ledger.Store.{find_row, update_rows, is_some}
use bank_core.Antifraud.Rules.{Rule, Observation, Alert, evaluate, advance_window, advance_day}

-- An error of the database, and parameters of a rule that are no JSON.
pub data ScorerFault : Type 0 where
  db_error : ScorerFault
  bad_params : String → ScorerFault

-- The JSON of a rule's parameters; a map that is not there is none.
pub record RuleParams : Type 0 where
  pub thresholds : Option (Dict ℤ)
  pub limits : Option (Dict ℤ)
  pub max_in_5m : ℤ

pub record RuleRow : Type 0 where
  pub id : String
  pub kind : String
  pub params : String
  pub severity : String
  pub enabled : Bool

-- A row of `customer_stats`.
pub record StatsRow : Type 0 where
  pub customer_id : String
  pub currency : String
  pub day : ℕ
  pub day_out_sum : ℤ
  pub win5m_start : ℕ
  pub win5m_count : ℤ

-- A row of `alerts`, less its details.
pub record AlertRow : Type 0 where
  pub id : String
  pub customer_id : String
  pub transfer_id : String
  pub rule_id : String
  pub severity : String

pub record Beneficiary : Type 0 where
  pub customer_id : String
  pub account : String

-- The payload of an outbox row, less its details.
pub record FraudAlertRaised : Type 0 where
  pub customer_id : String
  pub transfer_id : String
  pub rule : String
  pub severity : String
  pub account_id : String

pub record AntifraudDb : Type 0 where
  pub rules : List RuleRow
  pub stats : List StatsRow
  pub alerts : List AlertRow
  pub beneficiaries : List Beneficiary
  pub outbox : List FraudAlertRaised

abbrev pub AntifraudTx : Type 0 → Type 0
AntifraudTx A = AntifraudDb → Result ScorerFault (A × AntifraudDb)

-- `TransferCompleted`, as far as it is read.
pub record Completed : Type 0 where
  pub id : String
  pub is_topup : Bool
  pub customer_id : String
  pub from_account_id : String
  pub to_account_id : String
  pub amount : ℤ
  pub currency : String

-- `int32(n)`
abbrev pub to_int32 : ℤ → ℤ
to_int32 (pos n) = let m = n % 2 ^ 32 in if ltb m (2 ^ 31) then pos m else negsuc (2 ^ 32 - 1 - m)
to_int32 (negsuc n) =
    let m = n % 2 ^ 32 in if ltb m (2 ^ 31) then negsuc m else pos (2 ^ 32 - 1 - m)

abbrev pub has_stats : String → String → StatsRow → Bool
has_stats customer currency s = str_eq s.customer_id customer && str_eq s.currency currency

-- `UpsertStats`
unfoldable pub upsert_stats : StatsRow → AntifraudDb → AntifraudDb
upsert_stats s db =
    if is_some (find_row (has_stats s.customer_id s.currency) db.stats)
    then record db { stats = update_rows (has_stats s.customer_id s.currency) (λ _. s) db.stats }
    else record db { stats = s ∷ db.stats }

-- `TryInsertBeneficiary`: whether the row is new.
unfoldable pub try_insert_beneficiary : String → String → AntifraudDb → Bool × AntifraudDb
try_insert_beneficiary customer account db =
    if is_some (
      find_row (λ (b : Beneficiary). str_eq b.customer_id customer && str_eq b.account account)
        db.beneficiaries)
    then (false, db)
    else (
      true,
      record db {
        beneficiaries = record { customer_id = customer; account = account } ∷ db.beneficiaries;
      },
    )

-- `InsertAlert`: the id is unique, and the texts of `CHECK`.
unfoldable pub insert_alert : AlertRow → AntifraudTx (Unit {0})
insert_alert a db =
    if is_some (find_row (λ (b : AlertRow). str_eq b.id a.id) db.alerts)
    then err db_error
    else if not (str_eq a.severity "MEDIUM") && not (str_eq a.severity "HIGH")
    then err db_error
    else ok (tt, record db { alerts = a ∷ db.alerts })

-- `raise`
unfoldable pub raise_alert : String → Observation → Alert → AntifraudTx (Unit {0})
raise_alert id obs alert db =
    elim (insert_alert
      (record {
        id = id;
        customer_id = obs.customer_id;
        transfer_id = obs.transfer_id;
        rule_id = alert.rule_id;
        severity = alert.severity;
      })
      db) [
        | err e ↦ err e
        | ok (_, db₁) ↦
            let raised : FraudAlertRaised = record {
              customer_id = obs.customer_id;
              transfer_id = obs.transfer_id;
              rule = alert.rule_id;
              severity = alert.severity;
              account_id = obs.account_id;
            } in
            ok (tt, record db₁ { outbox = db₁.outbox ++ raised ∷ [] })
      ]

-- The loop over the alerts; the ids are those drawn one after another.
unfoldable pub raise_alerts : (ℕ → String) → ℕ → Observation → List Alert → AntifraudTx (Unit {0})
raise_alerts ids n obs [] db = ok (tt, db)
raise_alerts ids n obs (a ∷ rest) db = elim (raise_alert (ids n) obs a db) [
  | err e ↦ err e
  | ok (_, db₁) ↦ raise_alerts ids (suc n) obs rest db₁
]

abbrev pub enabled_rules : List RuleRow → List RuleRow
enabled_rules [] = []
enabled_rules (r ∷ rs) = let rest = enabled_rules rs in if r.enabled then r ∷ rest else rest

-- The thresholds of a rule: the limits where there are none.
abbrev pub rule_of : RuleRow → RuleParams → Rule
rule_of r p = record {
  id = r.id;
  kind = r.kind;
  severity = r.severity;
  thresholds = elim p.thresholds [ some d ↦ d | none ↦ elim p.limits [ some d ↦ d | none ↦ [] ] ];
  max_in_5m = p.max_in_5m;
}

module _ (parse : String → Option RuleParams) where
  -- The loop of `loadRules`.
  unfoldable pub parse_rules : List RuleRow → Result ScorerFault (List Rule)
  parse_rules [] = ok []
  parse_rules (r ∷ rs) = elim (parse r.params) [
    | none ↦ err (bad_params r.id)
    | some p ↦ elim (parse_rules rs) [ err e ↦ err e | ok rest ↦ ok (rule_of r p ∷ rest) ]
  ]

  -- `loadRules`
  abbrev pub load_rules : AntifraudDb → Result ScorerFault (List Rule)
  load_rules db = parse_rules (sort_by (λ (r : RuleRow). r.id) (enabled_rules db.rules))

  -- `Handle` from the windows on.
  unfoldable pub score : (ℕ → String) → ℕ → Completed → List Rule → AntifraudTx (Unit {0})
  score ids at e rules db =
      let old : StatsRow = elim (find_row (has_stats e.customer_id e.currency) db.stats) [
        | some s ↦ s
        | none ↦ record {
          customer_id = e.customer_id;
          currency = e.currency;
          day = 0;
          day_out_sum = pos 0;
          win5m_start = 0;
          win5m_count = pos 0;
        }
      ] in
      let (win_start, win_count) = advance_window old.win5m_start old.win5m_count at in
      let (day, day_sum) = advance_day old.day old.day_out_sum at e.amount in
      let (new_beneficiary, db₁) =
        (if str_eq e.to_account_id ""
          then (false, db)
          else try_insert_beneficiary e.customer_id e.to_account_id db) in
      let obs : Observation = record {
        customer_id = e.customer_id;
        transfer_id = e.id;
        account_id = e.from_account_id;
        amount = e.amount;
        currency = e.currency;
        at = at;
        count_5m = win_count;
        day_out_sum = day_sum;
        new_beneficiary = new_beneficiary;
      } in
      elim (raise_alerts ids 0 obs (evaluate rules obs) db₁) [
        | err x ↦ err x
        | ok (_, db₂) ↦ ok (
          tt,
          upsert_stats
              (record {
                customer_id = e.customer_id;
                currency = e.currency;
                day = day;
                day_out_sum = day_sum;
                win5m_start = win_start;
                win5m_count = to_int32 win_count;
              })
              db₂,
        )
      ]

  -- `Handle` of a completed transfer; `occurred_at` is 0 for the zero time.
  unfoldable pub handle_completed : (ℕ → String) → ℕ → ℕ → Completed → AntifraudTx (Unit {0})
  handle_completed ids occurred_at now e db =
      if e.is_topup then ok (tt, db) else elim (load_rules db) [
        | err x ↦ err x
        | ok rules ↦ score ids (if occurred_at == 0 then now else occurred_at) e rules db
      ]
