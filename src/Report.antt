-- ===== src/Report.antt =====
-- c/kernel/minimal_step9.c, the parts of `kernel_main` that show the results of the parallel
-- computations and the timer ticks.
pub mod Verdict
use zig_boot.Prelude.{
  ℕ, zero, suc, ◌+◌, Bool, true, false, ◌&&◌, ◌==◌, if◌then◌else◌, ltb, u64, Array, List, [], ◌∷◌,
  for_range,
}
use zig_boot.Console.{text}
use zig_boot.Machine.{Machine, puts, print_dec, print_dec_64}
use zig_boot.Boot.{puts_all}

-- `  CPU i: value` without the end of the line.
abbrev pub show_cpu : List ℕ → ℕ → ℕ → Machine → Machine
show_cpu label i value m = print_dec_64 value (puts (text ": ") (print_dec i (puts label m)))

abbrev pub rule : List ℕ
rule = text "===========================================\n"

abbrev pub banner : List ℕ → Machine → Machine
banner title m = puts_all (text "\n" ∷ rule ∷ title ∷ rule ∷ text "\n" ∷ []) m

-- The display of test 1, which reads a counter for each of the processors, sixteen at most.
pub show_counters : Machine → Machine
show_counters m0 =
    let m =
      puts_all (text "TEST 1: Parallel Counters\n" ∷ text "---------------------------\n" ∷ [])
        m0 in
    for_range m.kernel.cpu_count 0
      (λ i t.
        let u = show_cpu (text "  CPU ") i (t.results.per_cpu_counters i) t in
        if t.results.per_cpu_counters i == 1000000
        then puts (text " [OK]\n") u
        else puts (text " [FAIL]\n") u)
      m

abbrev pub expected_sum : ℕ
expected_sum = 50000005000000

-- The display of test 2: the partial sums, then the total.
pub show_partial_sums : Machine → Machine
show_partial_sums m0 =
    let m =
      puts_all
        (text "\nTEST 2: Distributed Sum (1 to 10,000,000)\n"
          ∷ text "-------------------------------------------\n"
          ∷ text "  Partial sums:\n"
          ∷ [])
        m0 in
    for_range m.kernel.cpu_count 0
      (λ i t. puts (text "\n") (show_cpu (text "    CPU ") i (t.results.partial_sums i) t)) m

pub show_total : Machine → Machine
show_total m =
    let m1 = puts (text "\n") (print_dec_64 m.results.total_sum (puts (text "  Total sum: ") m)) in
    let m2 = puts (text "\n") (print_dec_64 expected_sum (puts (text "  Expected:  ") m1)) in
    if m2.results.total_sum == expected_sum
    then puts (text "  [OK] Sum is correct!\n") m2
    else puts (text "  [FAIL] Sum mismatch!\n") m2

-- One round of the loop of test 3, with `barrier_ok`.
pub show_barrier_cpu : ℕ → Machine × Bool → Machine × Bool
show_barrier_cpu i (t, barrier_ok) =
    let u = show_cpu (text "  CPU ") i (t.results.per_cpu_counters i) t in
    if t.results.per_cpu_counters i == 1000000
    then (puts (text " [OK]\n") u, barrier_ok)
    else (puts (text " [FAIL]\n") u, false)

pub barrier_line : Bool → Machine → Machine
barrier_line barrier_ok m =
    if barrier_ok
    then puts (text "  [OK] Barrier synchronization worked!\n") m
    else puts (text "  [FAIL] Some CPUs didn't reach barrier\n") m

pub show_barrier : Machine → Machine × Bool
unfolding show_barrier_cpu barrier_line
show_barrier m0 =
    let m =
      puts_all
        (text "\nTEST 3: Barrier Synchronization\n"
          ∷ text "---------------------------------\n"
          ∷ text "  (All CPUs should reach 1M after barrier)\n"
          ∷ [])
        m0 in
    let (t, barrier_ok) = for_range m.kernel.cpu_count 0 show_barrier_cpu (m, true) in
    (barrier_line barrier_ok t, barrier_ok)

-- The final status.
pub show_status : Bool → Machine → Machine
show_status barrier_ok m0 =
    let m = puts_all (text "\n" ∷ rule ∷ []) m0 in
    puts rule (
      if m.results.total_sum == expected_sum && barrier_ok
      then puts (text "[SUCCESS] All parallel tests passed!\n") m
      else puts (text "[WARNING] Some tests failed\n") m)

pub show_results : Machine → Machine
unfolding show_counters show_partial_sums show_total show_barrier show_status
show_results m0 =
    let (m, barrier_ok) =
      show_barrier
        (show_total (show_partial_sums (show_counters (banner (text "  Test Results\n") m0)))) in
    show_status barrier_ok m

-- `total_ticks`
pub total_ticks : ℕ → Array → ℕ
total_ticks cpu_count ticks = for_range cpu_count 0 (λ i sum. u64 (sum + ticks i)) 0

-- What is shown after the wait for the timer.
pub show_cpu_ticks : Machine → Machine
show_cpu_ticks m0 =
    let m =
      puts (text "\n")
        (print_dec_64 m0.global_timer_calls (puts (text "[TIMER] Global handler calls: ") m0)) in
    let m1 = puts (text "[TIMER] Timer ticks per CPU:\n") m in
    for_range m1.kernel.cpu_count 0
      (λ i t. puts (text " ticks\n") (show_cpu (text "  CPU ") i (t.timer_ticks i) t)) m1

pub show_total_ticks : Machine → Machine
unfolding total_ticks
show_total_ticks m =
    let total = total_ticks m.kernel.cpu_count m.timer_ticks in
    let m1 = puts (text "\n") (print_dec_64 total (puts (text "  Total ticks: ") m)) in
    if ltb 0 total
    then puts (text "  [OK] Timer interrupts are working!\n") m1
    else puts (text "  [FAIL] No timer interrupts received!\n") m1

-- The last messages.
pub show_done : Machine → Machine
show_done m =
    puts_all
      (text "\n"
        ∷ rule
        ∷ text "  Step 9 Complete!\n"
        ∷ rule
        ∷ text "\n"
        ∷ text "[SUCCESS] Memory Management fully functional!\n"
        ∷ text "[SUCCESS] Multiboot2 memory map parsed\n"
        ∷ text "[SUCCESS] Physical Memory Manager (bitmap allocator)\n"
        ∷ text "[SUCCESS] Virtual Memory Manager (recursive page tables)\n"
        ∷ text "[SUCCESS] Kernel Heap initialized (16 MB)\n"
        ∷ text "[SUCCESS] APIC Timer working on all CPUs!\n"
        ∷ text "[SUCCESS] All 4 CPUs running in parallel\n"
        ∷ text "\n"
        ∷ text "[INFO] Step 9 demonstrates:\n"
        ∷ text "  - Multiboot2 boot protocol\n"
        ∷ text "  - Physical memory allocation (PMM)\n"
        ∷ text "  - Virtual memory mapping (VMM)\n"
        ∷ text "  - Recursive page table mapping\n"
        ∷ text "  - Kernel heap allocator\n"
        ∷ text "  - Per-CPU APIC timers\n"
        ∷ text "  - SMP-safe memory management\n"
        ∷ text "\n"
        ∷ text "System halted successfully.\n"
        ∷ [])
      m
