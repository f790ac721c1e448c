-- ===== src/Main.antt =====
-- c/kernel/minimal_step9.c, `kernel_main`: the boot phases, the start of the other processors, the timer,
-- the parallel computations and what is shown of them.
--
-- `others n` is what the other processors and the interrupts have done to the shared state by the end
-- of the n-th wait: 0 the wait after the start, 1 to 4 the calls of `barrier_wait`, 5 the two seconds.
pub mod Sequence
pub mod Endings
use zig_boot.Prelude.{
  ℕ, ◌+◌, ◌/◌, ◌^◌, ◌==◌, if◌then◌else◌, u32, store, List, [], ◌∷◌, Outcome, returns,
}
use zig_boot.Console.{text}
use zig_boot.Kernel.{Kernel}
use zig_boot.Device.{rdmsr, pauses, sti}
use zig_boot.Machine.{Machine, puts, print_dec, print_hex, perform, read}
use zig_boot.Vmm.{Mmu}
use zig_boot.Acpi.{acpi_find_rsdp, acpi_find_madt, acpi_parse_madt}
use zig_boot.Apic.{in_x2apic, apic_read, apic_init, apic_timer_init}
use zig_boot.Smp.{setup_trampoline, boot_all_aps, ap_start}
use zig_boot.Parallel.{Results, count_up, test_parallel_counters, test_distributed_sum}
use zig_boot.Boot.{and_then, puts_all, boot_memory, boot_tables}
use zig_boot.Report.{banner, show_results, show_cpu_ticks, show_total_ticks, show_done}

-- How `kernel_main` ends: halted without an RSDP, without a MADT, or after everything it does.
pub data Ending : Type 0 where
  no_rsdp : Machine → Ending
  no_madt : Machine → Ending
  finished : Machine → Ending

-- What is printed when the number of processors is known.
unfoldable pub detected : ℕ → Kernel → Machine → Machine
detected cpu_count k m = puts (text " CPU(s)\n") (
    print_dec cpu_count
      (puts (text "\n[ACPI] Detected ") (record m { kernel = record k { cpu_count = cpu_count } })))

pub show_online : Machine → Machine
show_online m0 =
    let m =
      puts_all (text "\n[SMP] Application Processors booted\n" ∷ text "[SMP] CPUs online: " ∷ [])
        m0 in
    let m1 =
      puts (text "\n")
        (print_dec m.kernel.cpu_count (puts (text " / ") (print_dec m.cpus_online m))) in
    if m1.cpus_online == u32 m1.kernel.cpu_count
    then puts (text "\n[SUCCESS] All CPUs booted successfully!\n") m1
    else puts_all
        (text "\n[WARNING] Not all CPUs came online\n"
          ∷ text "[INFO] This may be normal in some environments\n"
          ∷ [])
        m1

-- From `apic_init` to the end of `boot_all_aps`.
unfoldable pub start_cpus : Machine → Machine
start_cpus m =
    boot_all_aps
      (puts (text "\n[SMP] Starting AP boot sequence...\n") (setup_trampoline (apic_init m)))

pub show_register : List ℕ → ℕ → Machine → Machine
show_register label value m = puts (text "\n") (print_hex value (puts label m))

-- The timer's register as it is now, in the mode's own way.
pub read_lvt : Machine → Machine × ℕ
read_lvt m =
    if in_x2apic m
    then (let (t, value) = read (rdmsr 0x832) m in (t, u32 value))
    else apic_read 0x320 m

-- What `apic_timer_init` has left in `timer_init_debug`.
pub show_timer_init : Machine → Machine
unfolding show_register
show_timer_init m0 =
    let m = puts (text "[DEBUG] BSP Timer Init:\n") m0 in
    let m1 =
      show_register (text "  LVT after:   ") (m.timer_init_debug 1)
        (show_register (text "  LVT before:  ") (m.timer_init_debug 0) m) in
    show_register (text "  ICR:         ") (m1.timer_init_debug 3)
      (show_register (text "  DCR:         ") (m1.timer_init_debug 2) m1)

pub start_timer : Machine → Machine
unfolding show_timer_init show_register read_lvt
start_timer m0 =
    let m =
      apic_timer_init (
        perform sti
          (puts (text "\n[TIMER] Enabling interrupts and starting APIC Timer...\n") m0)) in
    let (m1, bsp_lvt) = read_lvt (show_timer_init m) in
    puts_all
      (text "[TIMER] BSP timer started successfully!\n"
        ∷ text "\n[INFO] APs will initialize their timers in parallel...\n"
        ∷ [])
      (show_register (text "  LVT current: ") bsp_lvt m1)

abbrev pub on_results : (Results → Results) → Machine → Machine
on_results f m = record m { results = f m.results }

-- Half a million counts, a wait for the others, and as many again.
abbrev pub test_barrier_sync : (ℕ → Machine → Machine) → ℕ → Machine → Machine
test_barrier_sync others cpu_id m =
    on_results (count_up 500000 cpu_id) (others 4 (on_results (count_up 500000 cpu_id) m))

-- The first processor's part of the tests; a call of `barrier_wait` is a wait for the others.
pub run_tests : (ℕ → Machine → Machine) → Machine → Machine
run_tests others m0 =
    let m =
      puts_all (text "[TEST] Waiting for APs to initialize...\n" ∷ [])
        (banner (text "  Running Parallel Computation Tests\n") m0) in
    let m1 = puts (text "[TEST] BSP running tests...\n") (perform (pauses 500000) m) in
    let m2 = others 1 (on_results (test_parallel_counters 0) m1) in
    let m3 = others 2 (on_results (test_distributed_sum m2.kernel.cpu_count 0) m2) in
    let m4 = on_results (λ r. record r { per_cpu_counters = store r.per_cpu_counters 0 0 }) m3 in
    puts (text "[TEST] All tests completed!\n") (test_barrier_sync others 0 (others 3 m4))

-- `ap_entry` up to its halt, on the machine as the processor that was started sees it, with the APIC
-- of its own.
pub ap_entry : (ℕ → Machine → Machine) → Machine → Machine
ap_entry others m0 =
    let (m, my_id) = ap_start m0 in
    let m1 = others 1 (on_results (test_parallel_counters my_id) m) in
    let m2 = others 2 (on_results (test_distributed_sum m1.kernel.cpu_count my_id) m1) in
    let m3 =
      on_results (λ r. record r { per_cpu_counters = store r.per_cpu_counters my_id 0 }) m2 in
    test_barrier_sync others my_id (others 3 m3)

-- Everything after the processors are known.
pub run_cpus : (ℕ → Machine → Machine) → Machine → Machine
unfolding start_cpus show_online start_timer run_tests
run_cpus others m0 =
    let m = start_timer (show_online (others 0 (start_cpus m0))) in
    let m1 = show_results (run_tests others m) in
    let m2 =
      puts (text "[TIMER] Waiting 2 seconds to collect timer ticks...\n")
        (banner (text "  APIC Timer Test\n") m1) in
    show_done (show_total_ticks (show_cpu_ticks (others 5 (perform (pauses 20000000) m2))))

-- From the search for the RSDP on; the MADT is parsed with `fuel` rounds.
pub find_cpus : ℕ → (ℕ → Machine → Machine) → Machine → Outcome Ending
unfolding detected run_cpus
find_cpus fuel others m0 =
    let m = puts (text "\n[ACPI] Searching for RSDP...\n") m0 in
    let rsdp = acpi_find_rsdp m.kernel.mem in
    let madt = acpi_find_madt m.kernel.mem rsdp in
    let m1 =
      puts_all (text "[ACPI] RSDP found!\n" ∷ text "[ACPI] Searching for MADT...\n" ∷ []) m in
    let m2 =
      puts_all (text "[ACPI] MADT found!\n" ∷ text "[ACPI] Parsing MADT entries...\n" ∷ []) m1 in
    let rest =
      and_then (acpi_parse_madt fuel madt m2.kernel)
        (λ r. returns (finished (run_cpus others (detected r.1 r.0 m2)))) in
    if rsdp == 0
    then returns
        (no_rsdp (puts_all (text "[ERROR] RSDP not found!\n" ∷ text "System halted.\n" ∷ []) m))
    else if madt == 0
    then returns
        (no_madt (puts_all (text "[ERROR] MADT not found!\n" ∷ text "System halted.\n" ∷ []) m1))
    else rest

pub kernel_main : ℕ → Mmu → (ℕ → Machine → Machine) → ℕ → Machine → Outcome Ending
unfolding find_cpus
kernel_main fuel mmu others multiboot_addr m =
    and_then (boot_memory fuel mmu multiboot_addr m) (λ t. find_cpus fuel others (boot_tables t))
