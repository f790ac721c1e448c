-- ===== src/Concurrent/Counters.antt =====
-- What each piece of work does to the counters: they follow from the number of pieces done.
use zig_boot.Prelude.{
  ℕ, zero, suc, ◌+◌, ◌^◌, ◌<◌, ◌≡◌, ◌≢◌, refl, sym, ◌∙◌, ap, arith, ◌==◌, if◌then◌else◌, u64,
  for_range_inv,
}
use native.Mathlib.Decide.{ℕ_discrete}
use zig_boot.Parallel.{Results, count_up, test_parallel_counters, test_distributed_sum}
use zig_boot.Parallel.Sum.{part}
use zig_boot.Concurrent.{Run, work, sync, RunReachable, begin, step, piece, pieces}
use zig_boot.Concurrent.Order.{RunReachable-InOrder}

-- The counter of a processor after so many pieces.
unfoldable pub count_after : ℕ → ℕ
count_after zero = 0
count_after (suc zero) = 1000000
count_after (suc (suc zero)) = 1000000
count_after (suc (suc (suc zero))) = 0
count_after (suc (suc (suc (suc zero)))) = 500000
count_after _ = 1000000

-- Counting changes the one counter, and it does not wrap around.
record IsCounted (n c : ℕ) (r t : Results) : Type 0 where
  mine : t.per_cpu_counters c ≡ r.per_cpu_counters c + n
  theirs : (j : ℕ) → c ≢ j → t.per_cpu_counters j ≡ r.per_cpu_counters j
  total : t.total_sum ≡ r.total_sum

count_up-IsCounted :
    (n c : ℕ) (r : Results) → r.per_cpu_counters c + n < 2 ^ 64 → IsCounted n c r (count_up n c r)
unfolding count_up
count_up-IsCounted n c r fits =
    for_range_inv (λ i t. IsCounted i c r t) _ n 0 n r (omega arith)
      (λ i t lo hi h. record {
        mine = ground (arith, h.mine);
        theirs = λ j ne. ground (arith, h.theirs j ne);
        total = h.total;
      })
      (record { mine = omega arith; theirs = λ j ne. refl; total = refl })

-- The piece `k` of the processor `i`.
pub record IsPiece (n k i : ℕ) (r t : Results) : Type 0 where
  pub mine : t.per_cpu_counters i ≡ count_after (k + 1)
  pub theirs : (j : ℕ) → i ≢ j → t.per_cpu_counters j ≡ r.per_cpu_counters j
  pub total : t.total_sum ≡ (if k == 1 then u64 (r.total_sum + part n i) else r.total_sum)

pub piece-IsPiece :
    (n k i : ℕ) (r : Results)
    → k < pieces
    → r.per_cpu_counters i ≡ count_after k
    → IsPiece n k i r (piece n k i r)
unfolding piece count_after test_parallel_counters test_distributed_sum
piece-IsPiece n zero i r h e =
    let c = count_up-IsCounted 1000000 i r (omega (arith, e)) in
    record { mine = omega (arith, c.mine, e); theirs = c.theirs; total = c.total }
piece-IsPiece n (suc zero) i r h e = record { mine = e; theirs = λ j ne. refl; total = refl }
piece-IsPiece n (suc (suc zero)) i r h e = record {
  mine = ground arith;
  theirs = λ j ne. ground arith;
  total = refl;
}
piece-IsPiece n (suc (suc (suc zero))) i r h e =
    let c = count_up-IsCounted 500000 i r (omega (arith, e)) in
    record { mine = omega (arith, c.mine, e); theirs = c.theirs; total = c.total }
piece-IsPiece n (suc (suc (suc (suc zero)))) i r h e =
    let c = count_up-IsCounted 500000 i r (omega (arith, e)) in
    record { mine = omega (arith, c.mine, e); theirs = c.theirs; total = c.total }
piece-IsPiece n (suc (suc (suc (suc (suc k))))) i r h e = absurd (omega arith)

-- In every reachable state the counter of each processor is what its pieces of work make it.
pub RunReachable-count_after :
    {n : ℕ} {r : Run}
    → RunReachable n r
    → (j : ℕ) → r.results.per_cpu_counters j ≡ count_after (r.worked j)
RunReachable-count_after (begin s) j = s.no_counts j ∙ rw (s.no_work j) (unfold count_after in refl)
RunReachable-count_after {n} (step {r} q (work i h at e)) j =
    let few : r.worked i < pieces = omega (arith, e, (RunReachable-InOrder q i).calls) in
    let p = piece-IsPiece n (r.worked i) i r.results few (RunReachable-count_after q i) in
    elim (ℕ_discrete i j) [
      | yes same ↦
          ap (piece n (r.worked i) i r.results).per_cpu_counters (sym same)
          ∙ p.mine
          ∙ ap count_after (ground (arith, same))
      | no ne ↦ p.theirs j ne ∙ RunReachable-count_after q j ∙ ap count_after (ground (arith, ne))
    ]
RunReachable-count_after (step q (sync s may)) j = RunReachable-count_after q j
