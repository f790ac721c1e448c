-- ===== src/Concurrent/Order.antt =====
-- No processor gets past its k-th barrier before all have done their k-th piece of work.
use zig_boot.Prelude.{ℕ, ◌+◌, ◌≤◌, ◌<◌, ◌≡◌, ◌≢◌, inl, inr, arith}
use native.Mathlib.Decide.{ℕ_discrete}
use zig_boot.Barrier.{
  Barrier, leave, Step, read_sense, arrive, arrive_last, reset, flip, see_flip, outside, Reachable,
  start, next,
}
use zig_boot.Barrier.Safety.{barrier_wait-safe}
use zig_boot.Concurrent.{Run, work, sync, RunReachable, begin, step, MayStep, on_work, pieces}

-- Outside the barrier a processor has done as many pieces as it has passed barriers, or one more;
-- inside it has done one more.
pub record InOrder (r : Run) (i : ℕ) : Type 0 where
  pub least : r.barrier.passed i ≤ r.worked i
  pub most : r.worked i ≤ r.barrier.passed i + 1
  pub inside :
      r.barrier.place i ≢ outside → (r.worked i ≡ r.barrier.passed i + 1) × (r.worked i < pieces)
  pub calls : r.barrier.passed i < pieces
  pub place : r.barrier.place i ≤ 4

pub RunReachable-barrier : {n : ℕ} {r : Run} → RunReachable n r → Reachable n r.barrier
RunReachable-barrier (begin s) = start s.unused
RunReachable-barrier (step q (work i h at e)) = RunReachable-barrier q
RunReachable-barrier (step q (sync s may)) = next (RunReachable-barrier q) s

module _ (n : ℕ) (r : Run) (o : (j : ℕ) → InOrder r j) where
  -- The processor `i` leaves the barrier.
  leave-InOrder :
      (i sense : ℕ)
      → r.barrier.place i ≢ outside
      → (j : ℕ)
      → InOrder (record r { barrier = leave i (record r.barrier { barrier_sense = sense }) }) j
  leave-InOrder i sense busy j = elim (ℕ_discrete i j) [
    | yes e ↦
        let (done, more) = (o i).inside busy in
        rw⁻¹ e (record {
          least = ground (arith, done);
          most = ground (arith, done);
          inside = λ out. absurd (ground arith);
          calls = ground (arith, done, more);
          place = ground arith;
        })
    | no ne ↦ record {
      least = ground (arith, (o j).least);
      most = ground (arith, (o j).most);
      inside = λ out. ground (arith, (o j).inside);
      calls = ground (arith, (o j).calls);
      place = ground (arith, (o j).place);
    }
  ]

  -- The processor `i` moves into the barrier, or inside it.
  sync-InOrder :
      {c : Barrier}
      → (s : Step n r.barrier c) → MayStep r.worked s
      → (j : ℕ) → InOrder (record r { barrier = c }) j
  sync-InOrder (read_sense i h at) (e, more) j = record {
    least = (o j).least;
    most = (o j).most;
    inside = λ busy. ground (arith, (o j).inside);
    calls = (o j).calls;
    place = ground (arith, (o j).place);
  }
  sync-InOrder (arrive i h at ne) may j = record {
    least = (o j).least;
    most = (o j).most;
    inside = λ busy. ground (arith, (o j).inside, at);
    calls = (o j).calls;
    place = ground (arith, (o j).place);
  }
  sync-InOrder (arrive_last i h at eq') may j = record {
    least = (o j).least;
    most = (o j).most;
    inside = λ busy. ground (arith, (o j).inside, at);
    calls = (o j).calls;
    place = ground (arith, (o j).place);
  }
  sync-InOrder (reset i h at) may j = record {
    least = (o j).least;
    most = (o j).most;
    inside = λ busy. ground (arith, (o j).inside, at);
    calls = (o j).calls;
    place = ground (arith, (o j).place);
  }
  sync-InOrder (flip i h at) may j = leave-InOrder i _ (omega (arith, at)) j
  sync-InOrder (see_flip i h at ne) may j = leave-InOrder i _ (omega (arith, at)) j

  work-InOrder :
      (i : ℕ)
      → r.barrier.place i ≡ outside
      → r.worked i ≡ r.barrier.passed i
      → (j : ℕ) → InOrder (on_work n i r) j
  work-InOrder i at e j = record {
    least = ground (arith, (o j).least);
    most = ground (arith, (o j).most, e);
    inside = λ busy. ground (arith, (o j).inside, at);
    calls = (o j).calls;
    place = ground (arith, (o j).place);
  }

pub RunReachable-InOrder : {n : ℕ} {r : Run} → RunReachable n r → (j : ℕ) → InOrder r j
RunReachable-InOrder (begin s) j = record {
  least = omega (arith, s.no_work j, s.unused.none_passed j);
  most = omega (arith, s.no_work j);
  inside = λ busy. absurd (busy (s.unused.all_outside j));
  calls = omega (arith, s.unused.none_passed j);
  place = omega (arith, s.unused.all_outside j);
}
RunReachable-InOrder {n} (step {r} q (work i h at e)) j =
    work-InOrder n r (RunReachable-InOrder q) i at e j
RunReachable-InOrder {n} (step {r} q (sync s may)) j =
    sync-InOrder n r (RunReachable-InOrder q) s may j

-- In every reachable state of at most sixteen processors that run the tests: when one has passed
-- `k` barriers, all have done their first `k` pieces of work.
pub RunReachable-worked :
    {n : ℕ} {r : Run}
    → n ≤ 16
    → RunReachable n r
    → (i j : ℕ) → i < n
    → j < n
    → r.barrier.passed i ≤ r.worked j
RunReachable-worked {n} {r} small q i j h g =
    let o = RunReachable-InOrder q j in
    elim (barrier_wait-safe n r.barrier (omega arith) (omega arith) (RunReachable-barrier q) i j h
      g) [
        | inl le ↦ omega (arith, o.least)
        | inr (ahead, at, s) ↦ omega (arith, ahead, (o.inside (omega (arith, at))).0)
      ]
