-- ===== src/Transfer/Postings.antt =====
-- services/transfer/internal/app/service.go: the legs that a transfer posts, and their way to the
-- ledger through ledgerclient/client.go and the ledger's grpc/server.go.
use bank_core.Prelude.{
  ◌≡◌, refl, arith, inl, inr, String, str_eq, if◌then◌else◌, List, [], ◌∷◌, map, none, some, All,
  Bool-cases, Option-cases,
}
use bank_core.Prelude.Int.{ℤ, pos, neg, ◌+ℤ◌, ◌<ℤ◌, int_laws}
use bank_core.Prelude.Int64.{IsInt64, neg64, neg64_exact}
use bank_core.Prelude.Results.{ok}
use bank_core.Ledger.Domain.{Account, Hold}
use bank_core.Ledger.Store.{AccountRef, PostingSpec, Db, get_account_by_ref}
use bank_core.Ledger.Books.{named_hold, resolve-cons, IsRequest}
use bank_core.Transfer.Request.{type_topup}
use bank_core.Transfer.Tables.{Transfer}

pub record LedgerAccountRef : Type 0 where
  pub external_id : String
  pub internal_code : String

pub record LedgerPosting : Type 0 where
  pub ref : LedgerAccountRef
  pub amount : ℤ
  pub currency : String

-- `cashInCode`
unfoldable pub cash_in_code : String → String
cash_in_code currency = if str_eq currency "USD" then "cash_in_usd" else "cash_in_kzt"

-- `fxPositionCode`
unfoldable pub fx_position_code : String → String
fx_position_code currency = if str_eq currency "USD" then "fx_position_usd" else "fx_position_kzt"

abbrev pub external : String → LedgerAccountRef
external id = record { external_id = id; internal_code = "" }

abbrev pub internal : String → LedgerAccountRef
internal code = record { external_id = ""; internal_code = code }

-- `sourceRef`
unfoldable pub source_ref : Transfer → LedgerAccountRef
source_ref t =
    if str_eq t.type type_topup
    then internal (cash_in_code t.currency)
    else external t.from_account_id

abbrev pub leg : LedgerAccountRef → ℤ → String → LedgerPosting
leg ref amount currency = record { ref = ref; amount = amount; currency = currency }

-- `buildPostings`
unfoldable pub build_postings : Transfer → List LedgerPosting
build_postings t = elim t.counter_amount [
  | none ↦
      leg (source_ref t) (neg64 t.amount) t.currency
      ∷ leg (external t.to_account_id) t.amount t.currency
      ∷ []
  | some counter ↦
      leg (source_ref t) (neg64 t.amount) t.currency
      ∷ leg (internal (fx_position_code t.currency)) t.amount t.currency
      ∷ leg (internal (fx_position_code t.counter_currency)) (neg64 counter) t.counter_currency
      ∷ leg (external t.to_account_id) counter t.counter_currency
      ∷ []
]

-- The oneof of the message `AccountRef`.
pub data ProtoRef : Type 0 where
  proto_external proto_internal proto_ledger : String → ProtoRef
  proto_unset : ProtoRef

-- `toProtoRef`
unfoldable pub to_proto_ref : LedgerAccountRef → ProtoRef
to_proto_ref ref =
    if str_eq ref.internal_code ""
    then proto_external ref.external_id
    else proto_internal ref.internal_code

-- `refFromProto`
unfoldable pub ref_from_proto : ProtoRef → AccountRef
ref_from_proto (proto_external id) = record { external_id = id; internal_code = ""; ledger_id = "" }
ref_from_proto (proto_internal code) = record {
  external_id = "";
  internal_code = code;
  ledger_id = "";
}
ref_from_proto (proto_ledger id) = record { external_id = ""; internal_code = ""; ledger_id = id }
ref_from_proto proto_unset = record { external_id = ""; internal_code = ""; ledger_id = "" }

-- One leg, from the client's `PostTransaction` to the server's.
unfoldable pub to_spec : LedgerPosting → PostingSpec
to_spec p = record {
  ref = ref_from_proto (to_proto_ref p.ref);
  amount = p.amount;
  currency = p.currency;
}

-- What the legs of a request sum to in a currency.
abbrev pub sum_specs : String → List PostingSpec → ℤ
sum_specs c [] = pos 0
sum_specs c (s ∷ ss) = (if str_eq c s.currency then s.amount else pos 0) +ℤ sum_specs c ss

-- The amounts that a request that was checked has: positive int64.
pub record HasAmounts (t : Transfer) : Type 0 where
  pub amount_range : IsInt64 t.amount
  pub amount_pos : pos 0 <ℤ t.amount
  pub counter_range : (n : ℤ) → t.counter_amount ≡ some n → IsInt64 n × (pos 0 <ℤ n)

neg64-pos : (a : ℤ) → IsInt64 a → pos 0 <ℤ a → (neg64 a ≡ neg a) × IsInt64 (neg64 a)
neg64-pos a h p =
    let range : IsInt64 (neg a) = grind (int_laws, h, p) in
    let exact = neg64_exact a range in (exact, rw exact range)

-- The legs of a transfer with positive int64 amounts sum to zero in every currency.
pub build_postings_balanced :
    (t : Transfer) (c : String)
    → HasAmounts t
    → sum_specs c (map to_spec (build_postings t)) ≡ pos 0
unfolding build_postings to_spec
build_postings_balanced t c h = elim (Option-cases t.counter_amount) [
  | inl one ↦
      rw (one, (neg64-pos t.amount h.amount_range h.amount_pos).0)
        (elim (Bool-cases (str_eq c t.currency)) [
          | inl same ↦ rw same (omega int_laws)
          | inr other ↦ rw other (omega int_laws)
        ])
  | inr (n, two) ↦
      let (range, positive) = h.counter_range n two in
      rw (two, (neg64-pos t.amount h.amount_range h.amount_pos).0, (neg64-pos n range positive).0)
        (elim (Bool-cases (str_eq c t.currency)) [
          | inl same ↦ elim (Bool-cases (str_eq c t.counter_currency)) [
            | inl same' ↦ rw (same, same') (omega int_laws)
            | inr other' ↦ rw (same, other') (omega int_laws)
          ]
          | inr other ↦ elim (Bool-cases (str_eq c t.counter_currency)) [
            | inl same' ↦ rw (other, same') (omega int_laws)
            | inr other' ↦ rw (other, other') (omega int_laws)
          ]
        ])
]

build_postings-amounts :
    (t : Transfer) → HasAmounts t → All (λ s. IsInt64 s.amount) (map to_spec (build_postings t))
unfolding build_postings to_spec
build_postings-amounts t h =
    let (_, negated) = neg64-pos t.amount h.amount_range h.amount_pos in
    elim (Option-cases t.counter_amount) [
      | inl one ↦ rw one (negated, (h.amount_range, tt))
      | inr (n, two) ↦
          let (range, positive) = h.counter_range n two in
          let (_, negated') = neg64-pos n range positive in
          rw two (negated, (h.amount_range, (negated', (range, tt))))
    ]

-- The source of the transfer, as the ledger reads it.
abbrev pub ledger_source : Transfer → AccountRef
ledger_source t = ref_from_proto (to_proto_ref (source_ref t))

build_postings-source :
    (t : Transfer)
    → (rest : List PostingSpec) × (map to_spec (build_postings t)
        ≡ record { ref = ledger_source t; amount = neg64 t.amount; currency = t.currency } ∷ rest)
unfolding build_postings to_spec
build_postings-source t =
    let rest : List PostingSpec = elim (map to_spec (build_postings t)) [
      | [] ↦ []
      | _ ∷ legs ↦ legs
    ] in
    elim (Option-cases t.counter_amount) [
      | inl one ↦ (rest, rw one refl)
      | inr (n, two) ↦ (rest, rw two refl)
    ]

-- The saga's use of a hold is what the ledger needs: for positive int64 amounts, and a hold that was
-- placed on the transfer's source, the legs have int64 amounts and one of them is on the account of
-- the hold, so that posting them keeps the books in order.
pub build_postings-IsRequest :
    (t : Transfer) (hold_id : String) (db : Db) (src : Account)
    → HasAmounts t
    → get_account_by_ref (ledger_source t) db ≡ ok src
    → ((h : Hold) → named_hold hold_id db ≡ some h → h.account_id ≡ src.id)
    → IsRequest hold_id (map to_spec (build_postings t)) db
build_postings-IsRequest t hold_id db src h known placed = (
  build_postings-amounts t h,
  λ accounts ps resolved hold named.
      let (rest, legs) = build_postings-source t in
      let (acct, later, found, _, posted) =
        resolve-cons _ rest [] accounts db ps (rw legs at resolved) in
      ground (arith, found, known, posted, placed hold named),
)
