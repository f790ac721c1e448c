-- ===== src/Concurrent/Examples.antt =====
-- Two processors do all their work, the first one ahead of the second at the end.
use zig_boot.Prelude.{ℕ, suc, ◌*◌, ◌<◌, ◌≤◌, ◌≡◌, ◌⊎◌, refl, false, arith}
use zig_boot.Barrier.{
  Barrier, read_sense, arrive, arrive_last, reset, flip, see_flip, outside, waiting, leave, on_read,
  on_arrive, arrived_last, on_reset, on_flip,
}
use zig_boot.Concurrent.{Run, RunStep, work, sync, RunReachable, begin, step, on_work, pieces}
use zig_boot.Concurrent.Counters.{count_after, RunReachable-count_after}
use zig_boot.Report.Verdict.{all_counted}
use zig_boot.Concurrent.Total.{RunReachable-total_sum}
use zig_boot.Concurrent.Steps.{steps, RunReachable-ends}

abbrev idle : Run
idle = record {
  barrier = record {
    barrier_count = 0;
    barrier_sense = 0;
    place = λ i. 0;
    my_sense = λ i. 0;
    passed = λ i. 0;
  };
  results = record { per_cpu_counters = λ i. 0; partial_sums = λ i. 0; total_sum = 0 };
  worked = λ i. 0;
}

-- Both are outside after `k` pieces and as many barriers.
record IsAt (k : ℕ) (r : Run) : Type 0 where
  place : (i : ℕ) → r.barrier.place i ≡ outside
  worked : (i : ℕ) → i < 2 → r.worked i ≡ k
  passed : (i : ℕ) → i < 2 → r.barrier.passed i ≡ k
  none : r.barrier.barrier_count ≡ 0
  sense : r.barrier.barrier_sense ≤ 1

-- Both do a piece, then the first waits and the second lets it go.
abbrev both_work : Run → Run
both_work r = on_work 2 1 (on_work 2 0 r)

abbrev first_waits : Barrier → Barrier
first_waits b = on_arrive waiting 0 (on_read 0 b)

abbrev second_flips : Barrier → Barrier
second_flips b = on_flip 1 (on_reset 1 (on_arrive arrived_last 1 (on_read 1 b)))

abbrev lap : Run → Run
lap r = let t = both_work r in record t { barrier = leave 0 (second_flips (first_waits t.barrier)) }

both_work-reachable : (k : ℕ) (r : Run) → RunReachable 2 r → IsAt k r → RunReachable 2 (both_work r)
both_work-reachable k r q a =
    step (step q (work 0 (omega arith) (a.place 0) (omega (arith, a.worked 0, a.passed 0))))
      (work 1 (omega arith) (a.place 1) (omega (arith, a.worked 1, a.passed 1)))

first_waits-reachable :
    (k : ℕ) (r : Run)
    → k < 4
    → RunReachable 2 (both_work r)
    → IsAt k r
    → let t = both_work r in RunReachable 2 (record t { barrier = first_waits t.barrier })
first_waits-reachable k r h q a =
    step
      (step q (
        sync (read_sense 0 (omega arith) (a.place 0))
          (ground (arith, a.worked 0, a.passed 0), ground (arith, a.worked 0))))
      (sync (arrive 0 (omega arith) refl (omega (arith, a.none))) tt)

second_flips-reachable :
    (k : ℕ) (r : Run)
    → k < 4
    → IsAt k r
    → let t = both_work r in
      RunReachable 2 (record t { barrier = first_waits t.barrier })
      → RunReachable 2 (record t { barrier = second_flips (first_waits t.barrier) })
second_flips-reachable k r h a q =
    step
      (step
        (step
          (step q (
            sync (read_sense 1 (omega arith) (a.place 1))
              (ground (arith, a.worked 1, a.passed 1), ground (arith, a.worked 1))))
          (sync (arrive_last 1 (omega arith) refl (omega (arith, a.none))) tt))
        (sync (reset 1 (omega arith) refl) tt))
      (sync (flip 1 (omega arith) refl) tt)

lap-reachable :
    (k : ℕ) (r : Run)
    → k < 4
    → RunReachable 2 r × IsAt k r
    → RunReachable 2 (lap r) × IsAt (suc k) (lap r)
lap-reachable k r h (q, a) =
    let inside = first_waits-reachable k r h (both_work-reachable k r q a) a in
    (
      step (second_flips-reachable k r h a inside)
          (sync (see_flip 0 (omega arith) refl (ground (arith, a.sense))) tt),
      record {
        place = λ i. ground (arith, a.place i);
        worked = λ i l. ground (arith, a.worked i l);
        passed = λ i l. ground (arith, a.passed i l);
        none = refl;
        sense = ground arith;
      },
    )

abbrev last_lap : Run
last_lap = lap (lap (lap (lap idle)))

idle-reachable : RunReachable 2 idle × IsAt 0 idle
idle-reachable = (
  begin (record {
    unused = record {
      no_count = refl;
      no_sense = refl;
      all_outside = λ i. refl;
      none_passed = λ i. refl;
    };
    no_counts = λ i. refl;
    no_total = refl;
    no_work = λ i. refl;
  }),
  record {
    place = λ i. refl;
    worked = λ i l. refl;
    passed = λ i l. refl;
    none = refl;
    sense = omega arith;
  },
)

laps : RunReachable 2 last_lap × IsAt 4 last_lap
laps = lap-reachable 3 _ (omega arith) (
    lap-reachable 2 _ (omega arith)
      (lap-reachable 1 _ (omega arith) (lap-reachable 0 idle (omega arith) idle-reachable)))

-- The first processor has done all its work and the second has the last piece before it.
abbrev early : Run
early = on_work 2 0 last_lap

early-reachable : RunReachable 2 early
early-reachable = step laps.0 (work 0 (omega arith) (laps.1.place 0) refl)

-- In this state the counter of the second processor is short, so that a look at it now finds a failure.
early_count : early.results.per_cpu_counters 1 ≡ 500000
unfolding count_after
early_count = RunReachable-count_after early-reachable 1

early_verdict : all_counted 2 early.results ≡ false
unfolding all_counted
early_verdict = ground (arith, early_count)

abbrev pub done : Run
done = on_work 2 1 early

pub done-reachable : RunReachable 2 done
done-reachable = step early-reachable (work 1 (omega arith) (laps.1.place 1) refl)

pub both_done : (j : ℕ) → j < 2 → done.worked j ≡ pieces
both_done j l = ground (arith, laps.1.worked j l)

RunReachable-total_sum_example : early.results.total_sum ≡ 50000005000000
RunReachable-total_sum_example =
    RunReachable-total_sum 0 (omega arith) early-reachable (omega arith) (omega arith)

RunReachable-ends_example :
    (steps early-reachable ≤ 2 * 29)
    × (((t : Run) × RunStep 2 early t) ⊎ ((j : ℕ) → j < 2 → early.worked j ≡ pieces))
RunReachable-ends_example = RunReachable-ends (omega arith) (omega arith) early-reachable
