-- ===== src/Barrier/Progress.antt =====
-- A barrier that is in use never stops: in every reachable state some processor can take a step.
use zig_boot.Prelude.{
  ℕ, zero, suc, ◌+◌, ◌<◌, ◌≤◌, ◌^◌, ◌≡◌, ◌⊎◌, inl, inr, Bool, true, false, arith, Bool-cases, u32,
}
use native.Mathlib.Decide.{ℕ_discrete}
use zig_boot.Pmm.Count.{count_full}
use zig_boot.Barrier.{
  Barrier, Step, read_sense, arrive, arrive_last, reset, flip, see_flip, Reachable,
}
use zig_boot.Barrier.Safety.{open_round, closing, Round, Stands, arrived, Reachable-Round}

-- Some place where a test fails, or none.
pub some_false :
    (n : ℕ) (f : ℕ → Bool) → ((j : ℕ) × (j < n) × (f j ≡ false)) ⊎ ((j : ℕ) → j < n → f j ≡ true)
some_false zero f = inr (λ j h. elim h [ ])
some_false (suc n) f = elim (some_false n f) [
  | inl (j, l, e) ↦ inl (j, omega arith, e)
  | inr all ↦ elim (Bool-cases (f n)) [
    | inl e ↦ inr (λ j h. elim (ℕ_discrete j n) [ yes q ↦ rw q e | no q ↦ all j (omega arith) ])
    | inr e ↦ inl (n, omega arith, e)
  ]
]

pub arrival : (n i : ℕ) (b : Barrier) → i < n → b.place i ≡ 1 → (c : Barrier) × Step n b c
arrival n i b h at = elim (ℕ_discrete (u32 (b.barrier_count + 1)) n) [
  | yes last ↦ (_, arrive_last i h at last)
  | no more ↦ (_, arrive i h at more)
]

Stands-Step :
    (n r j : ℕ) (b : Barrier)
    → j < n
    → b.barrier_sense ≤ 1
    → Stands r b j
    → arrived b j ≡ false
    → (c : Barrier) × Step n b c
Stands-Step n r j b h y (inl (p, inl at)) e = (_, read_sense j h at)
Stands-Step n r j b h y (inl (p, inr (inl (at, m)))) e = arrival n j b h at
Stands-Step n r j b h y (inl (p, inr (inr (at, m)))) e = absurd (ground arith)
Stands-Step n r j b h y (inr (p, at, m)) e = (_, see_flip j h at (omega arith))

Round-progress : (n r : ℕ) (b : Barrier) → Round n r b → (c : Barrier) × Step n b c
Round-progress n r b (open_round s e l, y) = elim (some_false n (arrived b)) [
  | inl (j, h, q) ↦ Stands-Step n r j b h y (s j h) q
  | inr all ↦ absurd (omega (arith, count_full n (arrived b) all))
]
Round-progress n r b (closing p h d m (inl at) o, y) = (_, reset p h at)
Round-progress n r b (closing p h d m (inr (at, z)) o, y) = (_, flip p h at)

-- In every reachable state of a barrier of at least one and fewer than 2 ^ 32 processors, some
-- processor can take a step: the barrier does not deadlock.
pub barrier_wait-progress :
    (n : ℕ) (b : Barrier) → 0 < n → n < 2 ^ 32 → Reachable n b → (c : Barrier) × Step n b c
barrier_wait-progress n b some small q =
    let (r, h) = Reachable-Round some small q in Round-progress n r b h
