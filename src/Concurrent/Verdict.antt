-- ===== src/Concurrent/Verdict.antt =====
-- When all processors have done all their work, `show_results` reports success.
use zig_boot.Prelude.{
  ℕ, zero, suc, ◌*◌, ◌/◌, ◌≤◌, ◌<◌, ◌≡◌, ◌∙◌, refl, ap, arith, true, ◌&&◌, ◌==◌, [], ◌∷◌,
}
use zig_boot.Console.{Console, text}
use zig_boot.Console.Text.{says}
use zig_boot.Machine.{Machine}
use zig_boot.Machine.Spoken.{Spoken}
use zig_boot.Parallel.{Results}
use zig_boot.Report.{rule, show_results}
use zig_boot.Report.Verdict.{all_counted, verdict, show_results-verdict}
use zig_boot.Concurrent.{Run, RunReachable, pieces}
use zig_boot.Concurrent.Order.{RunReachable-InOrder}
use zig_boot.Concurrent.Counters.{count_after, RunReachable-count_after}
use zig_boot.Concurrent.Total.{RunReachable-total_sum}

counted :
    (n : ℕ) (r : Results)
    → ((j : ℕ) → j < n → r.per_cpu_counters j ≡ 1000000)
    → all_counted n r ≡ true
unfolding all_counted
counted zero r h = refl
counted (suc n) r h = ground (arith, h n, counted n r (λ j g. h j (omega arith)))

-- When all of at least one and at most sixteen processors have done all their work, the first one
-- prints the line of success, with the results as they are then.
pub RunReachable-verdict :
    {n : ℕ} {r : Run} (m : Machine)
    → 0 < n
    → n ≤ 16
    → RunReachable n r
    → ((j : ℕ) → j < n → r.worked j ≡ pieces)
    → m.kernel.cpu_count ≡ n
    → m.results ≡ r.results
    → Spoken m (show_results m)
      × ((before : Console) × ((show_results m).kernel.console
            ≡ says
                (text "\n" ∷ rule ∷ text "[SUCCESS] All parallel tests passed!\n" ∷ rule ∷ [])
                before))
unfolding count_after
RunReachable-verdict {n} {r} m some small q done count results =
    let (quiet, (before, shown)) = show_results-verdict m (omega (arith, count)) in
    let first : 2 ≤ r.barrier.passed 0 =
      omega (arith, (RunReachable-InOrder q 0).most, done 0 some) in
    let total = RunReachable-total_sum 0 small q some first in
    let all : all_counted n r.results ≡ true =
      counted n r.results (λ j g. RunReachable-count_after q j ∙ ap count_after (done j g)) in
    let passed : (m.results.total_sum == 10000000 * 10000001 / 2
          && all_counted m.kernel.cpu_count m.results)
        ≡ true =
      rw (results, count, all, total) refl in
    (
      quiet,
      (before, shown ∙ ap (λ b. says (text "\n" ∷ rule ∷ verdict b ∷ rule ∷ []) before) passed),
    )
