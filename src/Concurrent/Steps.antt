-- ===== src/Concurrent/Steps.antt =====
-- A run of the tests ends: it has a bounded number of steps, and at its end all work is done.
use zig_boot.Prelude.{ℕ, zero, suc, ◌+◌, ◌*◌, ◌≤◌, ◌<◌, ◌≡◌, ◌≢◌, ◌⊎◌, arith, sum_to, sum_to_update}
use zig_boot.Barrier.{Barrier, Step, read_sense, arrive, arrive_last, reset, flip, see_flip}
use zig_boot.Concurrent.{Run, RunStep, work, sync, RunReachable, begin, step, pieces}
use zig_boot.Concurrent.Order.{InOrder, RunReachable-InOrder}
use zig_boot.Concurrent.Progress.{RunReachable-progress}

-- How far a processor is: each step of it adds something.
abbrev far : Run → ℕ → ℕ
far r j = r.worked j + 5 * r.barrier.passed j + r.barrier.place j

far_bound : (r : Run) (j : ℕ) → InOrder r j → far r j ≤ 29
far_bound r j o = omega (arith, o.most, o.calls, o.place)

-- The processor `i` gets further, and the others stay where they are.
record Moves (n i : ℕ) (r t : Run) : Type 0 where
  here : i < n
  further : far r i < far t i
  others : (j : ℕ) → j < n → j ≢ i → far t j ≡ far r j

sync-Moves :
    {n : ℕ} (r : Run) {c : Barrier}
    → Step n r.barrier c
    → (i : ℕ) × Moves n i r (record r { barrier = c })
sync-Moves r (read_sense i h at) =
    (i, record { here = h; further = ground (arith, at); others = λ j g ne. ground (arith, ne) })
sync-Moves r (arrive i h at e) =
    (i, record { here = h; further = ground (arith, at); others = λ j g ne. ground (arith, ne) })
sync-Moves r (arrive_last i h at e) =
    (i, record { here = h; further = ground (arith, at); others = λ j g ne. ground (arith, ne) })
sync-Moves r (reset i h at) =
    (i, record { here = h; further = ground (arith, at); others = λ j g ne. ground (arith, ne) })
sync-Moves r (flip i h at) =
    (i, record { here = h; further = ground (arith, at); others = λ j g ne. ground (arith, ne) })
sync-Moves r (see_flip i h at e) =
    (i, record { here = h; further = ground (arith, at); others = λ j g ne. ground (arith, ne) })

RunStep-Moves : {n : ℕ} {r t : Run} → RunStep n r t → (i : ℕ) × Moves n i r t
RunStep-Moves (work i h at e) =
    (i, record { here = h; further = ground arith; others = λ j g ne. ground (arith, ne) })
RunStep-Moves {r = r} (sync s may) = sync-Moves r s

RunStep-far : {n : ℕ} {r t : Run} → RunStep n r t → sum_to n (far r) < sum_to n (far t)
RunStep-far {n} {r} {t} s =
    let (i, m) = RunStep-Moves s in
    omega (arith, m.further, sum_to_update n (far r) (far t) i m.here m.others)

-- How many steps a run has had.
unfoldable pub steps : {n : ℕ} {r : Run} → RunReachable n r → ℕ
steps (begin s) = 0
steps (step q s) = steps q + 1

steps-far : {n : ℕ} {r : Run} (q : RunReachable n r) → steps q ≤ sum_to n (far r)
unfolding steps
steps-far (begin s) = omega arith
steps-far (step q s) = omega (arith, steps-far q, RunStep-far s)

sum_to_bound : (n b : ℕ) (f : ℕ → ℕ) → ((j : ℕ) → f j ≤ b) → sum_to n f ≤ n * b
unfolding sum_to
sum_to_bound zero b f h = omega arith
sum_to_bound (suc n) b f h = omega (arith, h n, sum_to_bound n b f h)

-- A run of the tests by at least one and at most sixteen processors has at most 29 steps for each
-- of them, and it can go on until all have done all their work: it always ends so.
pub RunReachable-ends :
    {n : ℕ} {r : Run}
    → 0 < n
    → n ≤ 16
    → (q : RunReachable n r)
    → (steps q ≤ n * 29) × (((t : Run) × RunStep n r t) ⊎ ((j : ℕ) → j < n → r.worked j ≡ pieces))
RunReachable-ends {n} {r} some small q =
    let bound = sum_to_bound n 29 (far r) (λ j. far_bound r j (RunReachable-InOrder q j)) in
    (omega (arith, steps-far q, bound), RunReachable-progress some small q)
