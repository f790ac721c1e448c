-- ===== src/Multiboot.antt =====
-- c/kernel/minimal_step9.c, the Multiboot2 information: the tags and the memory map as they stand
-- in memory, and `parse_multiboot_mmap`.
pub mod Walk
pub mod Entries
use zig_boot.Prelude.{
  ℕ, zero, suc, ◌+◌, ◌-◌, ◌*◌, ◌/◌, ◌%◌, ◌^◌, ◌==◌, ltb, if◌then◌else◌, u32, u64, sub64, clear_low,
  Array, read32, read64, for_range, Outcome, returns, divide_error, out_of_fuel,
}
use zig_boot.Console.{text}
use zig_boot.Kernel.{Kernel, puts, print_dec, print_dec_64, print_hex_64}

-- The fields of `struct multiboot_tag` and `struct multiboot_tag_mmap` at the address `tag`.
abbrev pub tag_type : Array → ℕ → ℕ
tag_type m tag = read32 m tag

abbrev pub tag_size : Array → ℕ → ℕ
tag_size m tag = read32 m (tag + 4)

abbrev pub entry_size : Array → ℕ → ℕ
entry_size m tag = read32 m (tag + 8)

-- `(uint8_t*)tag + ((tag->size + 7) & ~7)`
abbrev pub next_tag : Array → ℕ → ℕ
next_tag m tag = tag + clear_low 3 (u32 (tag_size m tag + 7))

-- `(size - sizeof(struct multiboot_tag_mmap)) / entry_size`, for an entry size that is not zero.
abbrev pub num_entries : Array → ℕ → ℕ
num_entries m tag = u32 (sub64 (tag_size m tag) 16 / entry_size m tag)

-- `(uint8_t*)mmap_tag->entries + i * mmap_tag->entry_size`, the product on uint32_t.
abbrev pub entry_at : Array → ℕ → ℕ → ℕ
entry_at m tag i = tag + 16 + u32 (i * entry_size m tag)

-- `struct multiboot_mmap_entry`
pub record Entry : Type 0 where
  pub addr : ℕ
  pub len : ℕ
  pub kind : ℕ

abbrev pub read_entry : Array → ℕ → Entry
read_entry m a = record { addr = read64 m a; len = read64 m (a + 8); kind = read32 m (a + 16) }

-- The case MULTIBOOT_MEMORY_AVAILABLE.
pub add_available : Entry → Kernel → Kernel
add_available e k =
    let end_addr = u64 (e.addr + e.len) in
    record k {
      usable_memory = u64 (k.usable_memory + e.len);
      total_memory =
          if ltb e.addr 0x100000000
          then if ltb k.total_memory end_addr then end_addr else k.total_memory
          else k.total_memory;
    }

-- The `switch` on the type of the entry.
pub count_entry : Entry → Kernel → Kernel
unfolding add_available
count_entry e k =
    if e.kind == 1
    then add_available e (puts (text "Available\n") k)
    else if e.kind == 2
    then puts (text "Reserved\n") k
    else if e.kind == 3
    then puts (text "ACPI Reclaimable\n") k
    else if e.kind == 4
    then puts (text "ACPI NVS\n") k
    else if e.kind == 5
    then puts (text "Bad RAM\n") k
    else puts (text ")\n") (print_dec e.kind (puts (text "Unknown (") k))

-- What is printed of an entry before the `switch`.
pub show_entry : Entry → Kernel → Kernel
show_entry e k = puts (text " MB) - ") (
    print_dec_64 (e.len / 1024 / 1024) (
      puts (text " (") (
        print_hex_64 (sub64 (u64 (e.addr + e.len)) 1)
          (puts (text " - ") (print_hex_64 e.addr (puts (text "[MMAP]   ") k))))))

-- One round of the loop over the entries of the map at `tag`.
pub parse_entry : ℕ → ℕ → Kernel → Kernel
parse_entry tag i k =
    let e = read_entry k.mem (entry_at k.mem tag i) in count_entry e (show_entry e k)

pub announce_map : ℕ → Kernel → Kernel
announce_map tag k = puts (text " bytes\n") (
    print_dec (entry_size k.mem tag)
      (puts (text "[MMAP] Entry size: ") (puts (text "[MMAP] Memory map found!\n") k)))

pub show_totals : Kernel → Kernel
show_totals k =
    let k1 =
      puts (text " MB\n")
        (print_dec_64 (k.total_memory / 1024 / 1024) (puts (text "[MMAP] Total memory: ") k)) in
    puts (text " MB\n")
      (print_dec_64 (k1.usable_memory / 1024 / 1024) (puts (text "[MMAP] Usable memory: ") k1))

-- The memory map at `tag`, from its announcement to the totals. The division traps on a zero size.
pub parse_map : ℕ → Kernel → Outcome Kernel
parse_map tag k =
    let k1 = announce_map tag k in
    let k2 = for_range (num_entries k.mem tag) 0 (parse_entry tag) k1 in
    if entry_size k.mem tag == 0 then divide_error else returns (show_totals k2)

-- The loop over the tags, which has no bound of its own: `fuel` rounds of it.
pub walk_tags : ℕ → ℕ → Kernel → Outcome Kernel
walk_tags zero tag k = out_of_fuel
walk_tags (suc fuel) tag k =
    let rest = walk_tags fuel (next_tag k.mem tag) k in
    if tag_type k.mem tag == 0
    then returns (puts (text "[ERROR] Memory map not found in Multiboot2 info!\n") k)
    else if tag_type k.mem tag == 6
    then parse_map tag k
    else rest

pub parse_multiboot_mmap : ℕ → ℕ → Kernel → Outcome Kernel
parse_multiboot_mmap fuel multiboot_info_addr k =
    walk_tags fuel (multiboot_info_addr + 8)
      (puts (text "\n[MMAP] Parsing Multiboot2 memory map...\n") k)
