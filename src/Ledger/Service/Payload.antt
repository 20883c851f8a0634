-- ===== src/Ledger/Service/Payload.antt =====
-- services/ledger/internal/app/service.go: samePayload.
use bank_core.Prelude.{
  String, str_eq, Bool, true, false, not, ◌&&◌, if◌then◌else◌, ◌==◌, List, [], ◌∷◌, length,
}
use bank_core.Prelude.Int.{ℤ, pos, ◌+ℤ◌, ◌-ℤ◌, eqb_ℤ}
use bank_core.Ledger.Domain.{Posting}
use bank_core.Ledger.Store.{PostingView, EntryView}

-- The local type `leg`.
pub record Leg : Type 0 where
  pub account : String
  pub amount : ℤ
  pub currency : String

abbrev pub leg_eq : Leg → Leg → Bool
leg_eq a b = str_eq a.account b.account && (eqb_ℤ a.amount b.amount && str_eq a.currency b.currency)

-- A Go map from legs to counts.
abbrev pub Counts : Type 0
Counts = List (Leg × ℤ)

-- `count[leg] += by`
abbrev pub bump : Leg → ℤ → Counts → Counts
bump l by [] = (l, by) ∷ []
bump l by ((k, n) ∷ cs) = if leg_eq l k then (k, n +ℤ by) ∷ cs else (k, n) ∷ bump l by cs

abbrev pub view_leg : PostingView → Leg
view_leg p = record { account = p.account_id; amount = p.amount; currency = p.currency }

abbrev pub posting_leg : Posting → Leg
posting_leg p = record { account = p.account_id; amount = p.amount; currency = p.currency }

-- `for _, p := range existing.Postings { count[…]++ }`
unfoldable pub count_up : List PostingView → Counts → Counts
count_up [] cs = cs
count_up (p ∷ ps) cs = count_up ps (bump (view_leg p) (pos 1) cs)

-- `for _, p := range requested { count[…]-- }`
unfoldable pub count_down : List Posting → Counts → Counts
count_down [] cs = cs
count_down (p ∷ ps) cs = count_down ps (bump (posting_leg p) (pos 0 -ℤ pos 1) cs)

abbrev pub none_left : Counts → Bool
none_left [] = true
none_left ((_, n) ∷ cs) = eqb_ℤ n (pos 0) && none_left cs

unfoldable pub same_payload : EntryView → List Posting → Bool
unfolding count_up count_down
same_payload existing requested =
    if not (length existing.postings == length requested)
    then false
    else none_left (count_down requested (count_up existing.postings []))
