-- ===== src/Concurrent.antt =====
-- c/kernel/minimal_step9.c, the tests of `kernel_main` and of `ap_entry` on all processors at once: each
-- does its five pieces of work in order, with a call of `barrier_wait` after each but the last, and
-- the steps of the processors interleave freely.
pub mod Order
pub mod Counters
pub mod Total
pub mod Progress
pub mod Steps
pub mod Verdict
pub mod Examples
use zig_boot.Prelude.{ℕ, zero, suc, ◌+◌, ◌<◌, ◌≡◌, Array, store}
use zig_boot.Parallel.{Results, count_up, test_parallel_counters, test_distributed_sum}
use zig_boot.Barrier.{
  Barrier, IsStart, Step, read_sense, arrive, arrive_last, reset, flip, see_flip, outside,
}

-- The piece of work `k` of the processor `cpu_id`: tests 1 and 2, the reset of its counter, and the
-- two halves of test 3. A piece reads and writes places of the processor alone, but for the one
-- atomic addition to `total_sum`. The places are there for the processors below MAX_CPUS = 16.
unfoldable pub piece : ℕ → ℕ → ℕ → Results → Results
piece cpu_count zero cpu_id r = test_parallel_counters cpu_id r
piece cpu_count (suc zero) cpu_id r = test_distributed_sum cpu_count cpu_id r
piece cpu_count (suc (suc zero)) cpu_id r = record r {
  per_cpu_counters = store r.per_cpu_counters cpu_id 0;
}
piece cpu_count _ cpu_id r = count_up 500000 cpu_id r

abbrev pub pieces : ℕ
pieces = 5

-- The barrier, the results, and how many pieces each processor has done.
pub record Run : Type 0 where
  pub barrier : Barrier
  pub results : Results
  pub worked : Array

abbrev pub on_work : ℕ → ℕ → Run → Run
on_work cpu_count i r = record r {
  results = piece cpu_count (r.worked i) i r.results;
  worked = store r.worked i (r.worked i + 1);
}

-- A processor calls `barrier_wait` when it has done the piece before the call; inside it goes on.
abbrev pub MayStep : {n : ℕ} {b c : Barrier} → Array → Step n b c → Type 0
MayStep {b = b} worked (read_sense i h at) = (worked i ≡ b.passed i + 1) × (worked i < pieces)
MayStep worked _ = Unit

-- One step of one of `cpu_count` processors: its next piece of work, outside the barrier, or a step of
-- `barrier_wait`.
pub data RunStep (cpu_count : ℕ) (r : Run) : Run → Type 0 where
  work :
      (i : ℕ)
      → i < cpu_count
      → r.barrier.place i ≡ outside
      → r.worked i ≡ r.barrier.passed i
      → RunStep cpu_count r (on_work cpu_count i r)
  sync :
      {c : Barrier}
      → (s : Step cpu_count r.barrier c) → MayStep r.worked s
      → RunStep cpu_count r (record r { barrier = c })

-- The barrier is unused, the counters and the total are 0, and nothing is done.
pub record IsRunStart (r : Run) : Type 0 where
  pub unused : IsStart r.barrier
  pub no_counts : (i : ℕ) → r.results.per_cpu_counters i ≡ 0
  pub no_total : r.results.total_sum ≡ 0
  pub no_work : (i : ℕ) → r.worked i ≡ 0

pub data RunReachable (cpu_count : ℕ) : Run → Type 0 where
  begin : {r : Run} → IsRunStart r → RunReachable cpu_count r
  step : {r t : Run} → RunReachable cpu_count r → RunStep cpu_count r t → RunReachable cpu_count t
