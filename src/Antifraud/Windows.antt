-- ===== src/Antifraud/Windows.antt =====
-- Proofs about AdvanceWindow of services/antifraud/internal/domain/rules.go.
use bank_core.Prelude.{
  ℕ, ◌+◌, ◌<◌, ◌^◌, ◌≡◌, ◌≢◌, arith, List, [], ◌∷◌, All, length, ◌++◌, ◌≤◌, refl,
}
use bank_core.Prelude.Int.{ℤ, pos, ◌+ℤ◌}
use bank_core.Prelude.Int64.{add64_exact}
use bank_core.Antifraud.Rules.{advance_window, five_minutes}

-- The window after one transfer after another.
abbrev pub windows : ℕ → ℤ → List ℕ → ℕ × ℤ
windows start count [] = (start, count)
windows start count (at ∷ ats) = let w = advance_window start count at in windows w.0 w.1 ats

advance_window-inside :
    (start n at : ℕ)
    → start ≢ 0
    → at < start + five_minutes
    → n + 1 < 2 ^ 63
    → advance_window start (pos n) at ≡ (start, pos (n + 1))
unfolding advance_window ◌+ℤ◌
advance_window-inside start n at set inside fits = ground (arith, add64_exact (pos n) (pos 1))

windows-inside :
    (start n : ℕ) (ats : List ℕ)
    → start ≢ 0
    → All (λ at. at < start + five_minutes) ats
    → n + length ats < 2 ^ 63
    → windows start (pos n) ats ≡ (start, pos (n + length ats))
windows-inside start n [] set inside fits = ground arith
windows-inside start n (at ∷ ats) set inside fits =
    rw (advance_window-inside start n at set inside.0 (ground arith))
      (ground (arith, windows-inside start (n + 1) ats set inside.1 (ground arith)))

advance_window-over :
    (start at : ℕ) (count : ℤ)
    → start + five_minutes ≤ at
    → advance_window start count at ≡ (at, pos 1)
unfolding advance_window
advance_window-over start at count over = ground arith

windows-++ :
    (start : ℕ) (count : ℤ) (ats later : List ℕ)
    → windows start count (ats ++ later)
      ≡ windows (windows start count ats).0 (windows start count ats).1 later
windows-++ start count [] later = refl
windows-++ start count (at ∷ ats) later =
    let w = advance_window start count at in windows-++ w.0 w.1 ats later

-- A window that has started, of n transfers, counts one by one the transfers before its five minutes are
-- over and keeps its start; the first transfer after them starts a new window, which counts that transfer
-- and those before its own five minutes are over, and nothing of the old window. The counts stay int64s.
pub windows_count :
    (start n at : ℕ) (ats later : List ℕ)
    → start ≢ 0
    → All (λ a. a < start + five_minutes) ats
    → n + length ats < 2 ^ 63
    → start + five_minutes ≤ at
    → All (λ a. a < at + five_minutes) later
    → 1 + length later < 2 ^ 63
    → (windows start (pos n) ats ≡ (start, pos (n + length ats)))
      × (windows start (pos n) (ats ++ at ∷ later) ≡ (at, pos (1 + length later)))
windows_count start n at ats later set inside fits over inside' fits' =
    let first = windows-inside start n ats set inside fits in
    let second = windows-inside at 1 later (ground arith) inside' fits' in
    let joined = windows-++ start (pos n) ats (at ∷ later) in
    let again = advance_window-over start at (pos (n + length ats)) over in
    (first, rw joined (rw first (rw again second)))
