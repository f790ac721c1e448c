-- ===== src/Hybrid/BootInfo.antt =====
-- hybrid/shared/boot_info.h, `BootInfo`, and how `kernel_main` of hybrid/boot/init.c fills and shows it.
use zig_boot.Prelude.{
  ℕ, ◌+◌, ◌*◌, Bool, true, false, ◌||◌, ◌==◌, ltb, if◌then◌else◌, ◌/◌, ◌%◌, ◌^◌, u32, u64, Option,
  none, some, for_range, List, [], ◌∷◌,
}
use zig_boot.Console.{text}
use zig_boot.Machine.{Machine, puts, print_dec, print_hex_64}
use zig_boot.Acpi.{max_cpus}
use zig_boot.Apic.{in_x2apic}
use zig_boot.Smp.{ap_stack_size}
use zig_boot.Boot.{puts_all}

-- One entry of `cpus`.
pub record CpuInfo : Type 0 where
  pub apic_id : ℕ
  pub stack_top : ℕ
  pub online : Bool

pub record BootInfo : Type 0 where
  pub cpu_count : ℕ
  pub bsp_apic_id : ℕ
  pub use_x2apic : Bool
  pub kernel_phys_start : ℕ
  pub kernel_phys_end : ℕ
  pub free_mem_start : ℕ
  pub free_mem_size : ℕ
  pub pmm_bitmap : ℕ
  pub pmm_bitmap_size : ℕ
  pub pml4_physical : ℕ
  pub rsdp_address : ℕ
  pub madt_address : ℕ
  pub idt_base : ℕ
  pub idt_limit : ℕ
  pub idt_loaded : Bool
  pub cpus : ℕ → CpuInfo
  pub apic_base : ℕ
  pub serial_initialized : Bool

-- The initialiser; what it does not name is zero.
unfoldable pub start_info : ℕ → ℕ → ℕ → Machine → BootInfo
start_info rsdp madt cr3_value m = record {
  cpu_count = u32 m.kernel.cpu_count;
  bsp_apic_id = m.kernel.cpu_apic_ids 0;
  use_x2apic = in_x2apic m;
  kernel_phys_start = m.kernel.kernel_start;
  kernel_phys_end = m.kernel.kernel_end;
  free_mem_start = u64 (m.kernel.pmm_bitmap + m.kernel.bitmap_size);
  free_mem_size = m.kernel.usable_memory;
  pmm_bitmap = m.kernel.pmm_bitmap;
  pmm_bitmap_size = u32 m.kernel.bitmap_size;
  pml4_physical = cr3_value / 2 ^ 12 % 2 ^ 36 * 2 ^ 12;  -- `& 0xFFFFFFFFF000UL`
  rsdp_address = rsdp;
  madt_address = madt;
  idt_base = m.symbols.handlers.idt_address;
  idt_limit = m.idt.limit;
  idt_loaded = true;
  cpus = λ i. record { apic_id = 0; stack_top = 0; online = false };
  apic_base = m.apic_base;
  serial_initialized = true;
}

-- The entry of the processor `i`.
abbrev pub cpu_info : Machine → ℕ → CpuInfo
cpu_info m i = record {
  apic_id = m.kernel.cpu_apic_ids i;
  stack_top = u64 (m.symbols.ap_stacks + i * ap_stack_size + ap_stack_size);
  online = i == 0 || ltb i m.cpus_online;
}

-- One round of the loop; a store past the end of the array, which C leaves undefined, is `none`.
unfoldable pub fill_cpu : Machine → ℕ → Option BootInfo → Option BootInfo
fill_cpu m i none = none
fill_cpu m i (some info) =
    if ltb i max_cpus
    then some (record info { cpus = λ j. if j == i then cpu_info m i else info.cpus j })
    else none

unfoldable pub fill_cpus : Machine → BootInfo → Option BootInfo
fill_cpus m info = for_range m.kernel.cpu_count 0 (fill_cpu m) (some info)

abbrev yes_no : Bool → List ℕ
yes_no b = if b then text "YES\n" else text "NO\n"

abbrev show_address : List ℕ → ℕ → Machine → Machine
show_address label a m = puts (text "\n") (print_hex_64 a (puts label m))

-- "[C] BootInfo structure filled:"
unfoldable pub show_info : BootInfo → Machine → Machine
show_info info m0 =
    let m = puts_all (text "[C] BootInfo structure filled:\n" ∷ text "  CPU count:     " ∷ []) m0 in
    let m1 =
      puts_all (text "\n" ∷ text "  x2APIC:        " ∷ yes_no info.use_x2apic ∷ [])
        (print_dec info.cpu_count m) in
    let m2 =
      show_address (text "  Kernel end:    ") info.kernel_phys_end
        (show_address (text "  Kernel start:  ") info.kernel_phys_start m1) in
    let m3 = puts (text " (") (print_hex_64 info.pmm_bitmap (puts (text "  PMM bitmap:    ") m2)) in
    let m4 =
      show_address (text "  PML4 physical: ") info.pml4_physical
        (puts (text " bytes)\n") (print_dec info.pmm_bitmap_size m3)) in
    puts_all (text "  IDT loaded:    " ∷ yes_no info.idt_loaded ∷ text "\n" ∷ []) m4
