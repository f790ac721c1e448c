-- ===== src/Hybrid/Start.antt =====
-- hybrid/boot/init.c, `kernel_main`: as in c/kernel/minimal_step9.c up to the timer, but with the
-- descriptor table first and without the tests; then the hand-over to Zig.
use zig_boot.Prelude.{ℕ, ◌==◌, if◌then◌else◌, Option, none, some, [], ◌∷◌, Outcome, returns}
use zig_boot.Console.{text}
use zig_boot.Device.{read_cr3}
use zig_boot.Machine.{Machine, puts, print_dec, read}
use zig_boot.Multiboot.{parse_multiboot_mmap}
use zig_boot.Pmm.Setup.{pmm_init, pmm_mark_free_regions}
use zig_boot.Heap.{heap_init}
use zig_boot.Vmm.{Mmu, vmm_init}
use zig_boot.Idt.{idt_init}
use zig_boot.Acpi.{acpi_find_rsdp, acpi_find_madt, acpi_parse_madt}
use zig_boot.Apic.{in_x2apic}
use zig_boot.Boot.{and_then, puts_all, on_kernel, start_console, calibrate_tsc}
use zig_boot.Report.{banner}
use zig_boot.Main.{detected, start_cpus, show_online, start_timer}
use zig_boot.Hybrid.BootInfo.{BootInfo, start_info, fill_cpus, show_info}
use zig_boot.Hybrid.Features.{detect_cpu_features}

-- How `kernel_main` ends: halted without an RSDP or a MADT, with `zig_kernel_main(&boot_info)`, or with
-- a store past the end of `boot_info.cpus`.
pub data HandOff : Type 0 where
  no_rsdp : Machine → HandOff
  no_madt : Machine → HandOff
  handed_over : BootInfo → Machine → HandOff
  overrun : Machine → HandOff

-- The parsing, and the descriptor table.
unfoldable pub boot_idt : Machine → Machine
boot_idt m0 =
    let m = puts (text "[IDT] Initializing Interrupt Descriptor Table...\n") m0 in
    puts_all
      (text "[IDT] IDT initialized with 32 exception handlers\n"
        ∷ text "[IDT] IDT loaded successfully!\n"
        ∷ text "\n"
        ∷ [])
      (record m { idt = idt_init m.symbols.handlers m.idt })

-- The descriptor table, then the memory managers.
unfoldable pub boot_managers : Mmu → ℕ → Machine → Outcome Machine
boot_managers mmu multiboot_addr m =
    let t = boot_idt m in
    and_then (pmm_mark_free_regions multiboot_addr (pmm_init multiboot_addr t.kernel))
      (λ k. returns (on_kernel heap_init (vmm_init mmu (record t { kernel = k }))))

-- `kernel_main` up to `heap_init`; the parsing has `fuel` rounds.
unfoldable pub prepare_memory : ℕ → Mmu → ℕ → Machine → Outcome Machine
prepare_memory fuel mmu multiboot_addr m0 =
    let m = start_console multiboot_addr m0 in
    and_then (parse_multiboot_mmap fuel multiboot_addr m.kernel)
      (λ k. boot_managers mmu multiboot_addr (record m { kernel = k }))

-- From there to the search for the processors.
unfoldable pub boot_features : Machine → Machine
boot_features m0 =
    let m =
      puts_all
        (text "\n"
          ∷ text "[OK] Serial port initialized (COM1)\n"
          ∷ text "[OK] Running in 64-bit long mode\n"
          ∷ text "\n"
          ∷ text "[GDT] Initializing GDT for BSP...\n"
          ∷ text "[GDT] Using bootloader GDT (no custom GDT/TSS)...\n"
          ∷ text "\n"
          ∷ [])
        m0 in
    let m1 =
      calibrate_tsc
        (puts (text "[TSC] Calibrating Time Stamp Counter...\n") (detect_cpu_features m)) in
    puts (text " kHz\n") (print_dec m1.tsc_khz (puts (text "[TSC] TSC frequency: ") m1))

-- "[C] Summary of initialized subsystems:"
unfoldable pub show_summary : Machine → Machine
show_summary m0 =
    let m =
      puts_all
        (text "[C] Summary of initialized subsystems:\n"
          ∷ text "  [OK] Serial port (COM1)\n"
          ∷ text "  [OK] Memory management (PMM + VMM)\n"
          ∷ text "  [OK] Kernel heap (16 MB)\n"
          ∷ text "  [OK] ACPI tables (RSDP + MADT)\n"
          ∷ text "  [OK] SMP - "
          ∷ [])
        (banner (text "  C Bootstrap Complete!\n") m0) in
    let m1 =
      puts_all (text " CPU(s) booted\n" ∷ text "  [OK] APIC (" ∷ [])
        (print_dec m.kernel.cpu_count m) in
    let m2 = puts (if in_x2apic m1 then text "x2APIC mode)\n" else text "xAPIC mode)\n") m1 in
    puts_all
      (text "  [OK] IDT with 32 exception handlers\n"
        ∷ text "  [OK] APIC timers on all CPUs\n"
        ∷ text "\n"
        ∷ [])
      m2

-- The last lines before the call.
abbrev pub farewell : BootInfo → Machine → Machine
farewell info m =
    puts_all
      (text "===========================================\n"
        ∷ text "  Handing off to Zig Kernel...\n"
        ∷ text "===========================================\n"
        ∷ text "\n"
        ∷ [])
      (show_info info m)

-- The call with the filled structure, or the overrun.
abbrev pub call_zig : Option BootInfo → Machine → HandOff
call_zig none m = overrun m
call_zig (some info) m = handed_over info (farewell info m)

unfoldable pub hand_over : ℕ → ℕ → Machine → HandOff
hand_over rsdp madt m0 =
    let (m, cr3_value) = read read_cr3 (show_summary m0) in
    call_zig (fill_cpus m (start_info rsdp madt cr3_value m)) m

-- Everything after the processors are known; `others 0` is what they do while they are started.
unfoldable pub start_and_hand_over : (ℕ → Machine → Machine) → ℕ → ℕ → Machine → HandOff
start_and_hand_over others rsdp madt m =
    hand_over rsdp madt (start_timer (show_online (others 0 (start_cpus m))))

-- From the search for the RSDP on; the MADT is parsed with `fuel` rounds.
unfoldable pub detect_cpus : ℕ → (ℕ → Machine → Machine) → Machine → Outcome HandOff
detect_cpus fuel others m0 =
    let m = puts (text "\n[ACPI] Searching for RSDP...\n") m0 in
    let rsdp = acpi_find_rsdp m.kernel.mem in
    let madt = acpi_find_madt m.kernel.mem rsdp in
    let m1 =
      puts_all (text "[ACPI] RSDP found!\n" ∷ text "[ACPI] Searching for MADT...\n" ∷ []) m in
    let m2 =
      puts_all (text "[ACPI] MADT found!\n" ∷ text "[ACPI] Parsing MADT entries...\n" ∷ []) m1 in
    let rest =
      and_then (acpi_parse_madt fuel madt m2.kernel)
        (λ r. returns (start_and_hand_over others rsdp madt (detected r.1 r.0 m2))) in
    if rsdp == 0
    then returns
        (no_rsdp (puts_all (text "[ERROR] RSDP not found!\n" ∷ text "System halted.\n" ∷ []) m))
    else if madt == 0
    then returns
        (no_madt (puts_all (text "[ERROR] MADT not found!\n" ∷ text "System halted.\n" ∷ []) m1))
    else rest

unfoldable pub kernel_main : ℕ → Mmu → (ℕ → Machine → Machine) → ℕ → Machine → Outcome HandOff
kernel_main fuel mmu others multiboot_addr m =
    and_then (prepare_memory fuel mmu multiboot_addr m)
      (λ t. detect_cpus fuel others (boot_features t))
