-- ===== src/Concurrent/Total.antt =====
-- The total is the sum of the parts of the processors that have added theirs.
use zig_boot.Prelude.{
  ℕ, zero, suc, ◌+◌, ◌≤◌, ◌<◌, ◌≡◌, refl, sym, ◌∙◌, inl, inr, arith, ◌==◌, leb, if◌then◌else◌,
  Bool-cases, Array, store, sum_to, sum_to_ext, sum_to_update, sum_to_mono,
}
use zig_boot.Parallel.Sum.{part, sum_to-part}
use zig_boot.Concurrent.{Run, work, sync, RunReachable, begin, step, pieces}
use zig_boot.Concurrent.Order.{RunReachable-InOrder, RunReachable-worked}
use zig_boot.Concurrent.Counters.{piece-IsPiece, RunReachable-count_after}

-- What a processor has added: its part, once its second piece of work is done.
abbrev added : ℕ → Array → ℕ → ℕ
added n worked j = if leb 2 (worked j) then part n j else 0

added_fits : (n : ℕ) (worked : Array) → 0 < n → sum_to n (added n worked) ≤ 50000005000000
added_fits n worked p =
    omega (arith, sum_to_mono n (added n worked) (part n) (λ q. ground arith), sum_to-part n p)

none_added : (n k : ℕ) (worked : Array) → ((i : ℕ) → worked i ≡ 0) → sum_to k (added n worked) ≡ 0
unfolding sum_to
none_added n zero worked h = refl
none_added n (suc k) worked h = ground (arith, h k, none_added n k worked h)

-- The next piece of the processor `i` adds its part if it is the second one.
work-added :
    (n i : ℕ) (worked : Array)
    → i < n
    → sum_to n (added n (store worked i (worked i + 1)))
      ≡ sum_to n (added n worked) + (if worked i == 1 then part n i else 0)
work-added n i worked h =
    let next = store worked i (worked i + 1) in
    let up = sum_to_update n (added n worked) (added n next) i h (λ q l ne. ground (arith, ne)) in
    ground (arith, up)

pub RunReachable-total :
    {n : ℕ} {r : Run} → 0 < n → RunReachable n r → r.results.total_sum ≡ sum_to n (added n r.worked)
RunReachable-total {n} {r} p (begin s) = s.no_total ∙ sym (none_added n n r.worked s.no_work)
RunReachable-total {n} p (step {r} q (work i h at e)) =
    let few : r.worked i < pieces = omega (arith, e, (RunReachable-InOrder q i).calls) in
    let w = piece-IsPiece n (r.worked i) i r.results few (RunReachable-count_after q i) in
    let before = RunReachable-total p q in
    let fits = added_fits n (store r.worked i (r.worked i + 1)) p in
    let up = work-added n i r.worked h in
    elim (Bool-cases (r.worked i == 1)) [
      | inl second ↦ ground (arith, w.total, before, up, fits)
      | inr other ↦ ground (arith, w.total, before, up)
    ]
RunReachable-total p (step q (sync s may)) = RunReachable-total p q

-- Once one processor has passed the second barrier, the total is the whole sum.
pub RunReachable-total_sum :
    {n : ℕ} {r : Run} (i : ℕ)
    → n ≤ 16
    → RunReachable n r
    → i < n
    → 2 ≤ r.barrier.passed i
    → r.results.total_sum ≡ 50000005000000
RunReachable-total_sum {n} {r} i small q h past =
    RunReachable-total (omega arith) q
    ∙ sum_to_ext n (part n) (added n r.worked)
        (λ j g. ground (arith, RunReachable-worked small q i j h g))
    ∙ sum_to-part n (omega arith)
