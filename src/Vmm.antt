-- ===== src/Vmm.antt =====
-- c/kernel/minimal_step9.c, the virtual memory manager: `vmm_init` sets up the recursive entry, and the
-- page tables are read and written at the addresses where that entry makes them appear.
pub mod Init
pub mod Walk
pub mod Loads
pub mod Exhausted
pub mod Astray
use zig_boot.Prelude.{
  ℕ, zero, suc, ◌+◌, ◌-◌, ◌*◌, ◌/◌, ◌%◌, ◌^◌, Bool, true, false, ◌==◌, if◌then◌else◌, bit_or, Array,
  read64, write64, for_range,
}
use zig_boot.Console.{text}
use zig_boot.Kernel.{Kernel}
use zig_boot.Device.{read_cr3, write_cr3}
use zig_boot.Machine.{Machine, puts, print_dec, print_hex_64, perform, read}
use zig_boot.Pmm.{pmm_alloc_page}

-- What is not in the source: the values, as uint64_t, that the compiler gives to
-- `RECURSIVE_INDEX << 39` and `RECURSIVE_INDEX << 30`, which C leaves undefined on an int, and the
-- address in physical memory at which the processor finds a virtual one.
pub record Mmu : Type 0 where
  pub shl_39 : ℕ
  pub shl_30 : ℕ
  pub translate : Array → ℕ → ℕ

abbrev pub recursive_index : ℕ
recursive_index = 511

-- `RECURSIVE_BASE | (RECURSIVE_INDEX << 39)`, the start of all four addresses
abbrev pub recursive_base : Mmu → ℕ
recursive_base mmu = bit_or 0xFFFF000000000000 mmu.shl_39

unfoldable pub pml4_virt_addr : Mmu → ℕ
pml4_virt_addr mmu =
    bit_or (bit_or (bit_or (recursive_base mmu) mmu.shl_30) (recursive_index * 2 ^ 21))
      (recursive_index * 2 ^ 12)

unfoldable pub pdpt_virt_addr : Mmu → ℕ → ℕ
pdpt_virt_addr mmu pml4_idx =
    bit_or (bit_or (bit_or (recursive_base mmu) mmu.shl_30) (recursive_index * 2 ^ 21))
      (pml4_idx * 2 ^ 12)

unfoldable pub pd_virt_addr : Mmu → ℕ → ℕ → ℕ
pd_virt_addr mmu pml4_idx pdpt_idx =
    bit_or (bit_or (bit_or (recursive_base mmu) mmu.shl_30) (pml4_idx * 2 ^ 21)) (pdpt_idx * 2 ^ 12)

unfoldable pub pt_virt_addr : Mmu → ℕ → ℕ → ℕ → ℕ
pt_virt_addr mmu pml4_idx pdpt_idx pd_idx =
    bit_or (bit_or (bit_or (recursive_base mmu) (pml4_idx * 2 ^ 30)) (pdpt_idx * 2 ^ 21))
      (pd_idx * 2 ^ 12)

-- `x & 0x000FFFFFFFFFF000UL`
abbrev pub frame : ℕ → ℕ
frame x = x / 2 ^ 12 % 2 ^ 40 * 2 ^ 12

pub vmm_init : Mmu → Machine → Machine
unfolding pml4_virt_addr
vmm_init mmu m0 =
    let (m, cr3) =
      read read_cr3 (puts (text "\n[VMM] Initializing Virtual Memory Manager...\n") m0) in
    let m1 =
      puts (text "\n") (print_hex_64 cr3 (puts (text "[VMM] Current CR3 (PML4 physical): ") m)) in
    let pml4_phys = frame cr3 in
    let m2 = record m1 {
      kernel = record m1.kernel {
        mem = write64 m1.kernel.mem (pml4_phys + 8 * recursive_index) (bit_or pml4_phys 3);
      };
    } in
    let m3 = record (perform (write_cr3 cr3) m2) { pml4 = pml4_virt_addr mmu } in
    let m4 =
      puts (text "\n")
        (print_dec recursive_index (puts (text "[VMM] Recursive mapping enabled at index ") m3)) in
    let m5 =
      puts (text "\n")
        (print_hex_64 (pml4_virt_addr mmu) (puts (text "[VMM] PML4 virtual address: ") m4)) in
    puts (text "[VMM] Virtual Memory Manager initialized!\n") m5

-- The four indices of a virtual address.
abbrev pub pml4_index : ℕ → ℕ
pml4_index virt_addr = virt_addr / 2 ^ 39 % 512

abbrev pub pdpt_index : ℕ → ℕ
pdpt_index virt_addr = virt_addr / 2 ^ 30 % 512

abbrev pub pd_index : ℕ → ℕ
pd_index virt_addr = virt_addr / 2 ^ 21 % 512

abbrev pub pt_index : ℕ → ℕ
pt_index virt_addr = virt_addr / 2 ^ 12 % 512

-- The addresses of the entries for a virtual address in the four tables.
abbrev pub pml4_entry : Mmu → ℕ → ℕ
pml4_entry mmu v = pml4_virt_addr mmu + 8 * pml4_index v

abbrev pub pdpt_entry : Mmu → ℕ → ℕ
pdpt_entry mmu v = pdpt_virt_addr mmu (pml4_index v) + 8 * pdpt_index v

abbrev pub pd_entry : Mmu → ℕ → ℕ
pd_entry mmu v = pd_virt_addr mmu (pml4_index v) (pdpt_index v) + 8 * pd_index v

abbrev pub pt_entry : Mmu → ℕ → ℕ
pt_entry mmu v = pt_virt_addr mmu (pml4_index v) (pdpt_index v) (pd_index v) + 8 * pt_index v

-- Loads and stores at virtual addresses.
abbrev pub load : Mmu → Kernel → ℕ → ℕ
load mmu k va = read64 k.mem (mmu.translate k.mem va)

abbrev pub save : Mmu → ℕ → ℕ → Kernel → Kernel
save mmu va value k = record k { mem = write64 k.mem (mmu.translate k.mem va) value }

-- `entry & PT_PRESENT`
abbrev pub is_present : ℕ → Bool
is_present entry = entry % 2 == 1

unfoldable pub vmm_virt_to_phys : Mmu → ℕ → Kernel → ℕ
unfolding pml4_virt_addr pdpt_virt_addr pd_virt_addr pt_virt_addr
vmm_virt_to_phys mmu virt_addr k =
    if is_present (load mmu k (pml4_entry mmu virt_addr))
    then if is_present (load mmu k (pdpt_entry mmu virt_addr))
      then if is_present (load mmu k (pd_entry mmu virt_addr))
        then if is_present (load mmu k (pt_entry mmu virt_addr))
          then frame (load mmu k (pt_entry mmu virt_addr)) + virt_addr % 2 ^ 12
          else 0
        else 0
      else 0
    else 0

-- The entry is made to point to a new table, cleared through the address where it then appears.
pub add_table : Mmu → ℕ → ℕ → ℕ → Kernel → Kernel
add_table mmu entry table page k =
    for_range 512 0 (λ i t. save mmu (table + 8 * i) 0 t) (save mmu entry (bit_or page 7) k)

-- `if (!(entry & PT_PRESENT)) { … }`, and whether the function goes on: not when memory is out.
unfoldable pub ensure_table : Mmu → ℕ → ℕ → Kernel → Kernel × Bool
unfolding add_table
ensure_table mmu entry table k =
    let (k1, page) = pmm_alloc_page k in
    if is_present (load mmu k entry)
    then (k, true)
    else if page == 0
    then (k1, false)
    else (add_table mmu entry table page k1, true)

-- The store that maps the page.
abbrev pub set_page : Mmu → ℕ → ℕ → ℕ → Kernel → Kernel
set_page mmu virt_addr phys_addr flags k =
    save mmu (pt_entry mmu virt_addr) (bit_or (frame phys_addr) flags) k

unfoldable pub vmm_map_page : Mmu → ℕ → ℕ → ℕ → Kernel → Kernel
unfolding ensure_table pml4_virt_addr pdpt_virt_addr pd_virt_addr pt_virt_addr
vmm_map_page mmu virt_addr phys_addr flags k =
    let pml4_idx = pml4_index virt_addr in
    let pdpt_idx = pdpt_index virt_addr in
    let (k1, goes_on) =
      ensure_table mmu (pml4_entry mmu virt_addr) (pdpt_virt_addr mmu pml4_idx) k in
    let (k2, goes_on') =
      ensure_table mmu (pdpt_entry mmu virt_addr) (pd_virt_addr mmu pml4_idx pdpt_idx) k1 in
    let (k3, goes_on'') =
      ensure_table mmu (pd_entry mmu virt_addr)
        (pt_virt_addr mmu pml4_idx pdpt_idx (pd_index virt_addr)) k2 in
    if goes_on
    then (if goes_on'
        then (if goes_on'' then set_page mmu virt_addr phys_addr flags k3 else k3)
        else k2)
    else k1

unfoldable pub vmm_unmap_page : Mmu → ℕ → Kernel → Kernel
unfolding pml4_virt_addr pdpt_virt_addr pd_virt_addr pt_virt_addr
vmm_unmap_page mmu virt_addr k =
    if is_present (load mmu k (pml4_entry mmu virt_addr))
    then if is_present (load mmu k (pdpt_entry mmu virt_addr))
      then if is_present (load mmu k (pd_entry mmu virt_addr))
        then save mmu (pt_entry mmu virt_addr) 0 k
        else k
      else k
    else k
