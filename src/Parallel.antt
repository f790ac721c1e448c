-- ===== src/Parallel.antt =====
-- c/kernel/minimal_step9.c, the parallel computations: the counters and the distributed sum.
pub mod Sum
use zig_boot.Prelude.{
  ℕ, ◌+◌, ◌-◌, ◌*◌, ◌/◌, ◌%◌, ◌^◌, ◌==◌, if◌then◌else◌, u64, Array, store, for_range, List, [], ◌∷◌,
}

-- `per_cpu_counters`, `partial_sums` and `total_sum`. The two arrays have MAX_CPUS = 16 places: what C does
-- to a processor number from 16 on is left open, and the theorems ask for at most sixteen processors.
pub record Results : Type 0 where
  pub per_cpu_counters : Array
  pub partial_sums : Array
  pub total_sum : ℕ

abbrev pub sum_target : ℕ
sum_target = 10000000

-- `n` rounds of `per_cpu_counters[cpu_id]++`.
unfoldable pub count_up : ℕ → ℕ → Results → Results
count_up n cpu_id = for_range n 0 (λ i r. record r {
  per_cpu_counters = store r.per_cpu_counters cpu_id (u64 (r.per_cpu_counters cpu_id + 1));
})

unfoldable pub test_parallel_counters : ℕ → Results → Results
unfolding count_up
test_parallel_counters = count_up 1000000

-- The first and the last number that a processor adds, of `cpu_count` processors.
pub first_of : ℕ → ℕ → ℕ
first_of cpu_count cpu_id = cpu_id * (sum_target / cpu_count) + 1

pub last_of : ℕ → ℕ → ℕ
last_of cpu_count cpu_id =
    if cpu_id + 1 == cpu_count then sum_target else (cpu_id + 1) * (sum_target / cpu_count)

-- `for (uint64_t i = start; i <= end; i++) local_sum += i;`
pub local_sum : ℕ → ℕ → ℕ
local_sum start end = for_range (end + 1 - start) start (λ i sum. u64 (sum + i)) 0

unfoldable pub test_distributed_sum : ℕ → ℕ → Results → Results
unfolding first_of last_of local_sum
test_distributed_sum cpu_count cpu_id r =
    let sum = local_sum (first_of cpu_count cpu_id) (last_of cpu_count cpu_id) in
    record r { partial_sums = store r.partial_sums cpu_id sum; total_sum = u64 (r.total_sum + sum) }

-- The processors one after another, in the order in which their additions to `total_sum` happen.
pub all_sums : ℕ → List ℕ → Results → Results
all_sums cpu_count [] r = r
all_sums cpu_count (c ∷ cs) r = all_sums cpu_count cs (test_distributed_sum cpu_count c r)
