-- ===== src/Barrier/Examples.antt =====
-- A run of two processors: the first waits, the second arrives last and leaves.
use zig_boot.Prelude.{ℕ, ◌<◌, ◌+◌, ◌≤◌, ◌≡◌, ◌≢◌, ◌⊎◌, refl, arith}
use zig_boot.Barrier.{
  Barrier, Step, waiting, arrived_last, on_read, on_arrive, on_reset, on_flip, read_sense, arrive,
  arrive_last, reset, flip, Reachable, start, next,
}
use zig_boot.Barrier.Safety.{barrier_wait-safe}
use zig_boot.Barrier.Absent.{IsOther, barrier_wait-absent}
use zig_boot.Barrier.Progress.{barrier_wait-progress}

abbrev idle : Barrier
idle = record {
  barrier_count = 0;
  barrier_sense = 0;
  place = λ i. 0;
  my_sense = λ i. 0;
  passed = λ i. 0;
}

abbrev first_waits : Barrier
first_waits = on_arrive waiting 0 (on_read 0 idle)

first_waits-Reachable : Reachable 2 first_waits
first_waits-Reachable =
    next
      (next
        (start (record {
          no_count = refl;
          no_sense = refl;
          all_outside = λ i. refl;
          none_passed = λ i. refl;
        }))
        (read_sense 0 (omega arith) refl))
      (arrive 0 (omega arith) refl (omega arith))

abbrev second_left : Barrier
second_left = on_flip 1 (on_reset 1 (on_arrive arrived_last 1 (on_read 1 first_waits)))

second_left-Reachable : Reachable 2 second_left
second_left-Reachable =
    next
      (next
        (next (next first_waits-Reachable (read_sense 1 (omega arith) refl))
          (arrive_last 1 (omega arith) refl refl))
        (reset 1 (omega arith) refl))
      (flip 1 (omega arith) refl)

barrier_wait-safe_example :
    (second_left.passed 1 ≤ second_left.passed 0)
    ⊎ (second_left.passed 1 ≡ second_left.passed 0 + 1)
      × (second_left.place 0 ≡ waiting)
      × (second_left.my_sense 0 ≢ second_left.barrier_sense)
barrier_wait-safe_example =
    barrier_wait-safe 2 second_left (omega arith) (omega arith) second_left-Reachable 1 0
      (omega arith) (omega arith)

barrier_wait-progress_example : (c : Barrier) × Step 2 second_left c
barrier_wait-progress_example =
    barrier_wait-progress 2 second_left (omega arith) (omega arith) second_left-Reachable

barrier_wait-absent_example :
    ((i : ℕ) → i < 2 → first_waits.passed i ≡ 0)
    × ((c : Barrier)
        → Step 2 first_waits c
        → (c ≡ on_read 1 first_waits) ⊎ IsOther 2 1 first_waits c)
barrier_wait-absent_example =
    barrier_wait-absent 2 1 first_waits (omega arith) (omega arith) first_waits-Reachable
      (record { place = refl; none = refl })
