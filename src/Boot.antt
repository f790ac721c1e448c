-- ===== src/Boot.antt =====
-- c/kernel/minimal_step9.c, the first part of `kernel_main`: the console, the memory managers and the
-- descriptor table, up to the search for the processors.
pub mod Start
pub mod Finish
use zig_boot.Prelude.{ℕ, List, [], ◌∷◌, Outcome, returns, divide_error, out_of_fuel, map_outcome}
use zig_boot.Serial.{serial_init}
use zig_boot.Vga.{vga_init}
use zig_boot.Console.{text}
use zig_boot.Kernel.{Kernel}
use zig_boot.Machine.{Machine, puts, print_dec, print_hex_64}
use zig_boot.Multiboot.{parse_multiboot_mmap}
use zig_boot.Pmm.Setup.{pmm_init, pmm_mark_free_regions}
use zig_boot.Vmm.{Mmu, vmm_init}
use zig_boot.Heap.{heap_init}
use zig_boot.Heap.Trial.{test_heap_allocator}
use zig_boot.Idt.{idt_init}

-- The rest of the code after a part that may not return.
abbrev pub and_then {ℓ κ} : {A : Type ℓ} {B : Type κ} → Outcome A → (A → Outcome B) → Outcome B
and_then (returns a) f = f a
and_then divide_error f = divide_error
and_then out_of_fuel f = out_of_fuel

-- Lines that are printed one after another.
abbrev pub puts_all : List (List ℕ) → Machine → Machine
puts_all [] m = m
puts_all (s ∷ strings) m = puts_all strings (puts s m)

abbrev pub on_kernel : (Kernel → Kernel) → Machine → Machine
on_kernel f m = record m { kernel = f m.kernel }

-- `serial_init(); vga_init();` and the banner.
unfoldable pub start_console : ℕ → Machine → Machine
start_console multiboot_addr m =
    let console = m.kernel.console in
    let m1 = record m {
      kernel = record m.kernel {
        console = record console {
          serial = serial_init console.serial;
          vga = vga_init console.vga;
        };
      };
    } in
    let m2 =
      puts_all
        (text "\n"
          ∷ text "===========================================\n"
          ∷ text "  Step 9: Memory Management + VGA\n"
          ∷ text "===========================================\n"
          ∷ text "\n"
          ∷ text "[INFO] Multiboot2 info at: "
          ∷ [])
        m1 in
    puts (text "\n") (print_hex_64 multiboot_addr m2)

-- The three passes over the Multiboot2 information; the first has `fuel` rounds.
pub boot_pmm : ℕ → ℕ → Kernel → Outcome Kernel
boot_pmm fuel multiboot_addr k =
    and_then (parse_multiboot_mmap fuel multiboot_addr k)
      (λ t. pmm_mark_free_regions multiboot_addr (pmm_init multiboot_addr t))

-- `vmm_init(); heap_init(); test_heap_allocator();`
pub boot_heap : Mmu → Machine → Machine
boot_heap mmu m = on_kernel test_heap_allocator (on_kernel heap_init (vmm_init mmu m))

-- `kernel_main` up to `test_heap_allocator`.
pub boot_memory : ℕ → Mmu → ℕ → Machine → Outcome Machine
unfolding start_console boot_pmm boot_heap
boot_memory fuel mmu multiboot_addr m0 =
    let m = start_console multiboot_addr m0 in
    map_outcome (λ k. boot_heap mmu (record m { kernel = k }))
      (boot_pmm fuel multiboot_addr m.kernel)

pub calibrate_tsc : Machine → Machine
calibrate_tsc m = record m { tsc_khz = 2000000 }

-- The descriptor table and the time stamp counter.
pub boot_tables : Machine → Machine
unfolding calibrate_tsc
boot_tables m =
    let m1 =
      puts_all
        (text "\n"
          ∷ text "[OK] Serial port initialized (COM1)\n"
          ∷ text "[OK] Running in 64-bit long mode\n"
          ∷ text "\n"
          ∷ text "[GDT] Initializing GDT for BSP...\n"
          ∷ text "[GDT] Using bootloader GDT (no custom GDT/TSS)...\n"
          ∷ text "\n"
          ∷ text "[IDT] Initializing Interrupt Descriptor Table...\n"
          ∷ [])
        m in
    let m2 = record m1 { idt = idt_init m1.symbols.handlers m1.idt } in
    let m3 = calibrate_tsc (
      puts_all
        (text "[IDT] IDT initialized with 32 exception handlers\n"
          ∷ text "[IDT] IDT loaded successfully!\n"
          ∷ text "\n"
          ∷ text "[TSC] Calibrating Time Stamp Counter...\n"
          ∷ [])
        m2) in
    puts (text " kHz\n") (print_dec m3.tsc_khz (puts (text "[TSC] TSC frequency: ") m3))
