-- ===== src/Examples/Machines.antt =====
-- The theorems on the whole machine at concrete ones: three processors in x2APIC mode.
use zig_boot.Prelude.{
  ℕ, ◌%◌, ◌^◌, ◌≢◌, ◌+◌, ◌-◌, ◌*◌, ◌/◌, ◌<◌, ◌≤◌, ◌≡◌, ◌⊎◌, ◌↔◌, inr, refl, sym, subst, arith, true,
  ◌^◌, if◌then◌else◌, ◌==◌, ◌&&◌, u32, u64, Array, read32, read64, List, [], ◌∷◌, ◌++◌, read16,
}
use zig_boot.Console.{Console, text}
use zig_boot.Console.Text.{sent, says}
use zig_boot.Kernel.{Kernel}
use zig_boot.Machine.{Machine, Symbols}
use zig_boot.Machine.Spoken.{Spoken}
use zig_boot.Apic.{apic_init, send_ipi}
use zig_boot.Apic.Events.{ipi, setting, Emits}
use zig_boot.Smp.{setup_trampoline}
use zig_boot.Smp.Boot.{start_sequences}
use zig_boot.Smp.Layout.{IsLaidOut, setup_trampoline-IsLaidOut}
use zig_boot.Interrupts.{exception_handler, timer_interrupt_handler}
use zig_boot.Interrupts.Names.{IsName}
use zig_boot.Interrupts.Exceptions.{is_returned, machine_of, headline, exception_handler_lem}
use zig_boot.Interrupts.Ticks.{apic_number, timer_interrupt_handler_lem}
use zig_boot.Heap.Trial.{test_heap_allocator}
use zig_boot.Heap.Trial.Passed.{passed_lines, test_heap_allocator-passed_lines}
use zig_boot.Report.{rule, show_results}
use zig_boot.Report.Verdict.{verdict, all_counted, show_results-verdict}
use zig_boot.Concurrent.Examples.{done, done-reachable, both_done}
use zig_boot.Concurrent.Verdict.{RunReachable-verdict}
use zig_boot.Vmm.{Mmu, frame}
use zig_boot.Boot.{boot_tables}
use zig_boot.Boot.Start.{IsBootable}
use zig_boot.Boot.Finish.{IsBooted}
use zig_boot.Main.{find_cpus, kernel_main, run_cpus}
use zig_boot.Apic.Ipi.{send_ipi-Emits}
use zig_boot.Apic.Quiet.{without_eois, Tells}
use zig_boot.Main.Sequence.{timer_settings, IsElsewhere, run_cpus-Tells}
use zig_boot.Main.Endings.{IsListed, kernel_main-IsBooted}
use zig_boot.Acpi.{sdt_length}
use zig_boot.Acpi.Cpus.{Entries}
use zig_boot.Acpi.Examples.{bios, bios_madt, bios-Entries}
use zig_boot.Examples.{small, console}
use zig_boot.Examples.Boot.{machine, memory-IsBytes, map_at, few_tags, safe}

-- Every register reads as 0x2000, also `cr3`; the code of the trampoline has 64 bytes.
abbrev symbols : Symbols
symbols = record {
  trampoline_start = 0x2100;
  trampoline_end = 0x2140;
  ap_entry_address = 0x2200;
  ap_stacks = 0x20000;
  handlers = record {
    pure_iretq_handler = 0x2300;
    exception_stubs = λ i. 0x2400 + 16 * i;
    timer_irq_stub = 0x2600;
    idt_address = 0x2800;
  };
}

abbrev pub with_kernel : Kernel → Machine
with_kernel k = record {
  kernel = k;
  device = record { reply = λ l. 0x2000; log = [] };
  symbols = symbols;
  use_x2apic = 1;
  apic_base = 0xFEE00000;
  idt = record {
    idt = λ i. record {
      offset_low = 0;
      selector = 0;
      ist = 0;
      type_attr = 0;
      offset_mid = 0;
      offset_high = 0;
      zero_field = 0;
    };
    limit = 0;
    base = 0;
    loaded = (0, 0);
  };
  results = record {
    per_cpu_counters = λ i. 1000000;
    partial_sums = λ i. 0;
    total_sum = 50000005000000;
  };
  cpus_online = 0;
  tsc_khz = 0;
  pml4 = 0;
  timer_init_debug = λ i. 0;
  exception_count = 7;
  global_timer_calls = 0;
  timer_ticks = λ i. 0;
}

abbrev three_ids : Array
three_ids i = if i == 1 then 2 else if i == 2 then 5 else 0

abbrev pub three : Machine
three = with_kernel (record small { cpu_apic_ids = three_ids; cpu_count = 3 })

abbrev pub no_others : ℕ → Machine → Machine
no_others n t = t

send_ipi-Emits_example : Emits three (send_ipi 5 0x608 three) (ipi 5 0x608 ∷ [])
send_ipi-Emits_example = send_ipi-Emits 5 0x608 three (omega arith) (omega arith)

-- In each wait the timer interrupts once.
abbrev pub ticking : ℕ → Machine → Machine
ticking n t = timer_interrupt_handler t

pub ticking-IsElsewhere : IsElsewhere ticking
unfolding without_eois
ticking-IsElsewhere n t = record {
  all = setting 0xB0 0 ∷ [];
  emits = (timer_interrupt_handler_lem t).3;
  told = refl;
}

run_cpus-Tells_example :
    Tells
      (apic_init three)
      (run_cpus ticking three)
      (timer_settings ++ start_sequences three_ids (3 - 1) 1)
run_cpus-Tells_example =
    run_cpus-Tells ticking three ticking-IsElsewhere (omega arith) (omega arith)
      (λ i h. ground arith)

setup_trampoline-IsLaidOut_example :
    IsLaidOut three three.kernel.mem (setup_trampoline three).kernel.mem 64 0x2000 0
setup_trampoline-IsLaidOut_example =
    setup_trampoline-IsLaidOut three 64
      (record { size_lem = refl; room = omega arith; apart = inr (omega arith) })

test_heap_allocator-passed_lines_example :
    let t = test_heap_allocator small in
    (t.console ≡ says passed_lines console)
    × (t.heap_current ≡ 0x4000 + 448)
    × (read64 t.mem 0x4000 ≡ 0xDEADBEEF)
    × ((j : ℕ) → j < 100 → read32 t.mem (0x4000 + 16 + 4 * j) ≡ j * 2)
    × ((a : ℕ) → (a < 0x4000) ⊎ (0x4000 + 448 ≤ a) → t.mem a ≡ small.mem a)
test_heap_allocator-passed_lines_example =
    test_heap_allocator-passed_lines small (omega arith, refl, omega arith, omega arith)

abbrev page_fault : ℕ
page_fault = 14

exception_handler_lem_example :
    let h = exception_handler page_fault 2 0xFFFF three in
    let t = machine_of h in
    ((is_returned h ≡ true) ↔ ((page_fault ≡ 3) ⊎ (page_fault ≡ 255)))
    × (t.exception_count ≡ u32 (7 + 1))
    × (t.device ≡ three.device)
    × ((name : List ℕ) × IsName page_fault name
        × ((rest : List ℕ) × (sent t.kernel.console ≡ sent console ++ (headline name ++ rest))))
exception_handler_lem_example =
    exception_handler_lem page_fault 2 0xFFFF three (omega arith) (omega arith)

timer_interrupt_handler_lem_example :
    let t = timer_interrupt_handler three in
    let id = apic_number three in
    (id < 16 → t.timer_ticks id ≡ (0 + 1) % 2 ^ 64)
    × ((i : ℕ) → (i ≢ id) ⊎ (16 ≤ i) → t.timer_ticks i ≡ 0)
    × (t.global_timer_calls ≡ u64 (0 + 1))
    × Emits three t (setting 0xB0 0 ∷ [])
timer_interrupt_handler_lem_example = timer_interrupt_handler_lem three

show_results-verdict_example :
    let passed = 50000005000000 == 10000000 * 10000001 / 2 && all_counted 3 three.results in
    Spoken three (show_results three)
    × ((before : Console) × ((show_results three).kernel.console
          ≡ says (text "\n" ∷ rule ∷ verdict passed ∷ rule ∷ []) before))
show_results-verdict_example = show_results-verdict three (omega arith)

-- Two processors that have done all their work.
abbrev finished : Machine
finished = record three {
  kernel = record small { cpu_apic_ids = three_ids; cpu_count = 2 };
  results = done.results;
}

RunReachable-verdict_example :
    Spoken finished (show_results finished)
    × ((before : Console) × ((show_results finished).kernel.console
          ≡ says
              (text "\n" ∷ rule ∷ text "[SUCCESS] All parallel tests passed!\n" ∷ rule ∷ [])
              before))
RunReachable-verdict_example =
    RunReachable-verdict finished (omega arith) (omega arith) done-reachable both_done refl refl

-- The shifts as gcc computes them, and memory at its own address.
abbrev pub mmu : Mmu
mmu = record { shl_39 = 0; shl_30 = 2 ^ 64 - 2 ^ 30; translate = λ m va. va }

-- The boot of the machine of `Examples.Boot`, whose information is at 0x1000 and whose map at 0x1018.
pub bootable : IsBootable 3 0x1000 0x1018 machine
unfolding read16 read32
bootable = record {
  bytes = memory-IsBytes;
  order = omega arith;
  kernel_low = omega arith;
  info_low = omega arith;
  info_lem = record { tags = map_at; few = few_tags; ram = refl; map = safe 0x1048 (omega arith) };
  enough = omega arith;
}

kernel_main-IsBooted_example :
    (t : Machine) × IsBooted 0x1018 (frame 0x2000) machine t.kernel
    × (kernel_main 3 mmu no_others 0x1000 (with_kernel machine)
        ≡ find_cpus 3 no_others (boot_tables t))
kernel_main-IsBooted_example =
    kernel_main-IsBooted 3 0x1000 0x1018 mmu no_others (with_kernel machine) bootable (omega arith)

-- The MADT of these tables lists one processor, with APIC ID 5.
abbrev pub with_tables : Machine
with_tables = with_kernel (record small { mem = bios })

pub listed : IsListed 16 with_tables (5 ∷ [])
unfolding read16 read32
listed = record {
  entries =
      subst (λ madt. Entries bios (madt + sdt_length bios madt) (madt + 44) (5 ∷ []))
        (sym bios_madt) bios-Entries;
  enough = subst (λ madt. sdt_length bios madt ≤ 44 + 16) (sym bios_madt) (omega arith);
}
