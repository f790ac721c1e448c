-- ===== src/Concurrent/Progress.antt =====
-- The tests never stop before all processors have done all their work.
use zig_boot.Prelude.{
  ℕ, zero, suc, u32, ◌+◌, ◌≤◌, ◌<◌, ◌≡◌, ◌≢◌, ◌⊎◌, refl, inl, inr, Bool, true, false, arith, ◌==◌,
  leb, if◌then◌else◌, Bool-cases,
}
use native.Mathlib.Decide.{ℕ_discrete}
use zig_boot.Pmm.Count.{count_full}
use zig_boot.Barrier.{read_sense, arrive, arrive_last, reset, flip, see_flip, outside, entered}
use zig_boot.Barrier.Safety.{open_round, closing, Round, arrived, Reachable-Round}
use zig_boot.Barrier.Progress.{some_false}
use zig_boot.Concurrent.{Run, RunStep, work, sync, RunReachable, pieces}
use zig_boot.Concurrent.Order.{InOrder, RunReachable-barrier, RunReachable-InOrder}

-- The processor has done everything, or waits for others.
abbrev stuck : Run → ℕ → Bool
stuck r j = if r.barrier.place j == outside then leb pieces (r.worked j) else arrived r.barrier j

-- A step inside the barrier is always allowed.
arrival-RunStep :
    (n j : ℕ) (r : Run) → j < n → r.barrier.place j ≡ entered → (t : Run) × RunStep n r t
arrival-RunStep n j r h at = elim (ℕ_discrete (u32 (r.barrier.barrier_count + 1)) n) [
  | yes last ↦ (_, sync (arrive_last j h at last) tt)
  | no more ↦ (_, sync (arrive j h at more) tt)
]

outside-RunStep :
    (n j : ℕ) (r : Run)
    → j < n
    → InOrder r j
    → r.barrier.place j ≡ outside
    → r.worked j < pieces
    → (t : Run) × RunStep n r t
outside-RunStep n j r h o at more = elim (ℕ_discrete (r.worked j) (r.barrier.passed j)) [
  | yes e ↦ (_, work j h at e)
  | no ne ↦ (_, sync (read_sense j h at) (omega (arith, o.least, o.most), more))
]

inside-RunStep :
    (n j place : ℕ) (r : Run)
    → j < n
    → place ≤ 4
    → r.barrier.place j ≡ place
    → place ≢ outside
    → arrived r.barrier j ≡ false
    → (t : Run) × RunStep n r t
inside-RunStep n j zero r h l at busy a = absurd (busy refl)
inside-RunStep n j (suc zero) r h l at busy a = arrival-RunStep n j r h at
inside-RunStep n j (suc (suc zero)) r h l at busy a = (_, sync (see_flip j h at (ground arith)) tt)
inside-RunStep n j (suc (suc (suc zero))) r h l at busy a = (_, sync (reset j h at) tt)
inside-RunStep n j (suc (suc (suc (suc zero)))) r h l at busy a = (_, sync (flip j h at) tt)
inside-RunStep n j (suc (suc (suc (suc (suc p))))) r h l at busy a = absurd (omega arith)

stuck-RunStep :
    (n j : ℕ) (r : Run) → j < n → InOrder r j → stuck r j ≡ false → (t : Run) × RunStep n r t
stuck-RunStep n j r h o free = elim (Bool-cases (r.barrier.place j == outside)) [
  | inl out ↦ outside-RunStep n j r h o (ground arith) (ground arith)
  | inr busy ↦ inside-RunStep n j (r.barrier.place j) r h o.place refl (ground arith) (ground arith)
]

-- If nobody can go on, all have done everything.
stuck_done :
    (n k : ℕ) (r : Run)
    → ((j : ℕ) → InOrder r j)
    → Round n k r.barrier
    → ((j : ℕ) → j < n → stuck r j ≡ true)
    → (j : ℕ) → j < n
    → r.worked j ≡ pieces
stuck_done n k r o (closing p h d m w others, y) all j g = absurd (ground (arith, w, all p h))
stuck_done n k r o (open_round s e l, y) all j g = elim (some_false n (arrived r.barrier)) [
  | inl (q, h, a) ↦ let last : k ≡ 4 = ground (arith, all q h, a, s q h, o q) in done last
  | inr full ↦ absurd (omega (arith, e, l, count_full n (arrived r.barrier) full))
]
  where
    done : k ≡ 4 → r.worked j ≡ pieces
    done last = ground (arith, all j g, s j g, o j, last, y)

-- In every reachable state of at least one and at most sixteen processors that run the tests, some
-- step is possible, or all have done all their work.
pub RunReachable-progress :
    {n : ℕ} {r : Run}
    → 0 < n
    → n ≤ 16
    → RunReachable n r
    → ((t : Run) × RunStep n r t) ⊎ ((j : ℕ) → j < n → r.worked j ≡ pieces)
RunReachable-progress {n} {r} some small q =
    let o = RunReachable-InOrder q in
    let (k, round) = Reachable-Round some (omega arith) (RunReachable-barrier q) in
    elim (some_false n (stuck r)) [
      | inl (j, h, free) ↦ inl (stuck-RunStep n j r h (o j) free)
      | inr all ↦ inr (stuck_done n k r o round all)
    ]
