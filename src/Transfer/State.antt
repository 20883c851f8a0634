-- ===== src/Transfer/State.antt =====
-- services/transfer/internal/domain/state.go: the states of a transfer and the transition function.
use bank_core.Prelude.{
  ℕ, ◌+◌, ◌≤◌, ◌≡◌, refl, arith, ◌⊎◌, ◌≢◌, ◌↔◌, inl, inr, Bool, true, false, List, [], ◌∷◌, Option,
  none, some, length,
}
use bank_core.Prelude.Results.{Result, ok, err, Result-cases}

pub data TransferError : Type 0 where
  illegal_transition invalid_spec same_account limit_exceeded amount_too_small : TransferError

pub data State : Type 0 where
  created validating held posting completed releasing failed : State

-- `==` on states.
unfoldable pub state_eq : State → State → Bool
state_eq created created = true
state_eq validating validating = true
state_eq held held = true
state_eq posting posting = true
state_eq completed completed = true
state_eq releasing releasing = true
state_eq failed failed = true
state_eq _ _ = false

pub data Event : Type 0 where
  start validated validation_failed hold_failed posting_started : Event
  posted post_failed recovery_exhausted released : Event

pub state_eq_iff : (s t : State) → (state_eq s t ≡ true) ↔ (s ≡ t)
unfolding state_eq
state_eq_iff s t = ground arith

-- The map `transitions`: none where it has no entry.
unfoldable pub transitions : State → Event → Option State
transitions created start = some validating
transitions validating validated = some held
transitions validating validation_failed = some failed
transitions held posting_started = some posting
transitions held hold_failed = some releasing
transitions held recovery_exhausted = some releasing
transitions posting posted = some completed
transitions posting post_failed = some releasing
transitions posting recovery_exhausted = some releasing
transitions releasing released = some failed
transitions _ _ = none

-- `Next`
unfoldable pub next : State → Event → Result TransferError State
next s e = elim (transitions s e) [ some to ↦ ok to | none ↦ err illegal_transition ]

-- `IsTerminal`
unfoldable pub is_terminal : State → Bool
is_terminal completed = true
is_terminal failed = true
is_terminal _ = false

-- The events of a saga, one after another.
abbrev pub run : State → List Event → Result TransferError State
run s [] = ok s
run s (e ∷ es) = elim (next s e) [ ok s' ↦ run s' es | err x ↦ err x ]

-- How many transitions a state has at most before it.
abbrev pub rank : State → ℕ
rank created = 5
rank validating = 4
rank held = 3
rank posting = 2
rank releasing = 1
rank completed = 0
rank failed = 0

next-rank : (s : State) (e : Event) {t : State} → next s e ≡ ok t → rank t + 1 ≤ rank s
unfolding next transitions
next-rank s e h = ground arith

-- A run that makes only legal transitions ends: its events and what is left of the rank are at most
-- the rank it started at, so a new transfer makes at most five transitions.
pub run_bounded :
    (s : State) (es : List Event) {t : State} → run s es ≡ ok t → length es + rank t ≤ rank s
run_bounded s [] e = ground arith
run_bounded s (ev ∷ es) {t = u} e = elim (Result-cases (next s ev)) [
  | inr (x, illegal) ↦ absurd (ground arith)
  | inl (t, legal) ↦
      let ih = run_bounded t es {t = u} (ground arith) in ground (arith, next-rank s ev legal, ih)
]

run-cons :
    (s : State) (e : Event) (es : List Event) {t : State}
    → run s (e ∷ es) ≡ ok t
    → (s' : State) × (next s e ≡ ok s') × (run s' es ≡ ok t)
run-cons s e es h = elim (Result-cases (next s e)) [
  | inr (x, illegal) ↦ absurd (ground arith)
  | inl (s', legal) ↦ (s', legal, ground arith)
]

-- From a terminal state no event leads on.
run-terminal :
    (s t : State) (es : List Event) → is_terminal s ≡ true → run s es ≡ ok t → (es ≡ []) × (t ≡ s)
unfolding next transitions is_terminal
run-terminal s t [] done h = (refl, ground arith)
run-terminal s t (e ∷ es) done h = let (s', legal, _) = run-cons s e es h in absurd (ground arith)

failed-not_completed : (s : State) (es : List Event) → s ≡ failed → run s es ≢ ok completed
unfolding is_terminal
failed-not_completed s es same h =
    let (_, stuck) = run-terminal s completed es (ground arith) h in ground arith

completed-stays : (s : State) (es : List Event) → s ≡ completed → run s es ≡ ok completed → es ≡ []
unfolding is_terminal
completed-stays s es same h = (run-terminal s completed es (ground arith) h).0

next-releasing : (e : Event) {t : State} → next releasing e ≡ ok t → t ≡ failed
unfolding next transitions
next-releasing e h = ground arith

releasing-not_completed : (es : List Event) → run releasing es ≢ ok completed
releasing-not_completed [] h = ground arith
releasing-not_completed (e ∷ es) h =
    let (s', legal, rest) = run-cons releasing e es h in
    failed-not_completed s' es (next-releasing e legal) rest

next-posting :
    (e : Event) {t : State}
    → next posting e ≡ ok t
    → ((e ≡ posted) × (t ≡ completed)) ⊎ (t ≡ releasing)
unfolding next transitions
next-posting e h = ground arith

posting-completed : (es : List Event) → run posting es ≡ ok completed → es ≡ posted ∷ []
posting-completed [] h = absurd (ground arith)
posting-completed (e ∷ es) h =
    let (s', legal, rest) = run-cons posting e es h in
    elim (next-posting e legal) [
      | inl (same, to) ↦ let last = completed-stays s' es to rest in ground (arith, same, last)
      | inr to ↦ absurd (releasing-not_completed es (simp (← to) rest))
    ]

next-held :
    (e : Event) {t : State}
    → next held e ≡ ok t
    → ((e ≡ posting_started) × (t ≡ posting)) ⊎ (t ≡ releasing)
unfolding next transitions
next-held e h = ground arith

held-completed : (es : List Event) → run held es ≡ ok completed → es ≡ posting_started ∷ posted ∷ []
held-completed [] h = absurd (ground arith)
held-completed (e ∷ es) h =
    let (s', legal, rest) = run-cons held e es h in
    elim (next-held e legal) [
      | inl (same, to) ↦
          let later = posting-completed es (simp (← to) rest) in ground (arith, same, later)
      | inr to ↦ absurd (releasing-not_completed es (simp (← to) rest))
    ]

next-validating :
    (e : Event) {t : State}
    → next validating e ≡ ok t
    → ((e ≡ validated) × (t ≡ held)) ⊎ (t ≡ failed)
unfolding next transitions
next-validating e h = ground arith

validating-completed :
    (es : List Event)
    → run validating es ≡ ok completed
    → es ≡ validated ∷ posting_started ∷ posted ∷ []
validating-completed [] h = absurd (ground arith)
validating-completed (e ∷ es) h =
    let (s', legal, rest) = run-cons validating e es h in
    elim (next-validating e legal) [
      | inl (same, to) ↦
          let later = held-completed es (simp (← to) rest) in ground (arith, same, later)
      | inr to ↦ absurd (failed-not_completed s' es to rest)
    ]

-- A new transfer is completed by one run of events alone: it is started, its request is validated,
-- the posting starts, which needs the hold, and the ledger has posted it.
pub run_completed :
    (es : List Event)
    → run created es ≡ ok completed
    → es ≡ start ∷ validated ∷ posting_started ∷ posted ∷ []
unfolding next transitions
run_completed [] h = absurd (ground arith)
run_completed (e ∷ es) h =
    let (s', legal, rest) = run-cons created e es h in
    let only : ((e ≡ start) × (s' ≡ validating)) = ground arith in
    let later = validating-completed es (simp (← only.1) rest) in ground (arith, only, later)
