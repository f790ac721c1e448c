-- ===== src/Pmm/Setup.antt =====
-- c/kernel/minimal_step9.c, `pmm_init` and `pmm_mark_free_regions`: the bitmap is placed and filled,
-- and the memory map is walked once more to free the RAM.
pub mod Init
pub mod Regions
mod Info
pub mod Marked
pub mod Boot
use zig_boot.Prelude.{
  ℕ, zero, suc, ◌+◌, ◌-◌, ◌*◌, ◌/◌, ◌%◌, ◌^◌, ◌&&◌, ◌==◌, ltb, leb, if◌then◌else◌, u64, sub64,
  read32, for_range, Outcome, returns, divide_error, map_outcome,
}
use zig_boot.Console.{text}
use zig_boot.Kernel.{Kernel, puts, print_dec_64, print_hex_64}
use zig_boot.Memory.{memset}
use zig_boot.Multiboot.{Entry, read_entry, tag_type, next_tag, entry_size, num_entries, entry_at}
use zig_boot.Pmm.{page_size, page_align, pmm_mark_region_free, pmm_mark_region_used}

-- The address of the bitmap: the first page boundary past the kernel and the Multiboot2 information.
pub bitmap_addr : ℕ → Kernel → ℕ
bitmap_addr multiboot_info_addr k =
    let mb_end = u64 (multiboot_info_addr + read32 k.mem multiboot_info_addr) in
    page_align (if ltb k.kernel_end mb_end then mb_end else k.kernel_end)

-- The limit of 64 MB.
pub limit_memory : ℕ → ℕ
limit_memory total = if ltb (64 * 1024 * 1024) total then 64 * 1024 * 1024 else total

pub pmm_init : ℕ → Kernel → Kernel
pmm_init multiboot_info_addr k0 =
    let k = puts (text "\n[PMM] Initializing Physical Memory Manager...\n") k0 in
    let total_memory = limit_memory k.total_memory in
    let total_pages = total_memory / page_size in
    let bitmap_size = u64 (total_pages + 7) / 8 in
    let bitmap = bitmap_addr multiboot_info_addr k in
    let k1 = record k {
      total_memory = total_memory;
      total_pages = total_pages;
      bitmap_size = bitmap_size;
      pmm_bitmap = bitmap;
    } in
    let k2 = puts (text " pages)\n") (
      print_dec_64 total_pages (
        puts (text " KB (") (
          print_dec_64 (bitmap_size / 1024) (
            puts (text "[PMM] Bitmap size: ") (
              puts (text "\n")
                (print_hex_64 bitmap (puts (text "[PMM] Bitmap location: ") k1))))))) in
    puts (text "[PMM] Physical Memory Manager initialized!\n")
      (record k2 { mem = memset bitmap 0xFF bitmap_size k2.mem; used_pages = total_pages })

-- One round of the loop over the entries: an available region is capped at `total_memory`.
pub free_entry : Entry → Kernel → Kernel
free_entry e k =
    let capped =
      if ltb k.total_memory (u64 (e.addr + e.len)) then sub64 k.total_memory e.addr else e.len in
    if e.kind == 1
    then if leb k.total_memory e.addr then k else pmm_mark_region_free e.addr capped k
    else k

pub free_entry_at : ℕ → ℕ → Kernel → Kernel
free_entry_at tag i k = free_entry (read_entry k.mem (entry_at k.mem tag i)) k

-- The loop over the tags with its `tag_count < 100`, `rounds` of which are left.
pub free_walk : ℕ → ℕ → Kernel → Outcome Kernel
free_walk zero tag k = returns k
free_walk (suc rounds) tag k =
    let rest = free_walk rounds (next_tag k.mem tag) k in
    let freed = for_range (num_entries k.mem tag) 0 (free_entry_at tag) k in
    if tag_type k.mem tag == 0
    then returns k
    else if tag_type k.mem tag == 6
    then (if entry_size k.mem tag == 0 then divide_error else returns freed)
    else rest

-- What follows the loop: the kernel and the bitmap are marked, and the result is shown.
pub mark_kernel : Kernel → Kernel
mark_kernel k =
    let bitmap_end = u64 (k.pmm_bitmap + k.bitmap_size) in
    let k1 = puts (text "\n") (
      print_hex_64 bitmap_end (
        puts (text " - ") (
          print_hex_64 k.kernel_start
            (puts (text "[PMM] Marking kernel + bitmap as used: ") k)))) in
    let k2 = pmm_mark_region_used k.kernel_start (sub64 bitmap_end k.kernel_start) k1 in
    let free = sub64 k2.total_pages k2.used_pages in
    puts (text " KB free)\n") (
      print_dec_64 (u64 (free * 4)) (
        puts (text " (") (
          print_dec_64 k2.total_pages
            (puts (text " / ") (print_dec_64 free (puts (text "[PMM] Free pages: ") k2))))))

pub pmm_mark_free_regions : ℕ → Kernel → Outcome Kernel
pmm_mark_free_regions multiboot_info_addr k =
    map_outcome mark_kernel
      (free_walk 100 (multiboot_info_addr + 8) (puts (text "[PMM] Marking free regions...\n") k))
