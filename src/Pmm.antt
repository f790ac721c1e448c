-- ===== src/Pmm.antt =====
-- c/kernel/minimal_step9.c, physical memory manager: one bit of `pmm_bitmap` for each page, 1 for a
-- page in use. The bitmap stands in memory from the address `pmm_bitmap` on.
pub mod Count
pub mod Bitmap
mod Step
pub mod Region
pub mod Alloc
pub mod Setup
use zig_boot.Prelude.{
  ℕ, zero, suc, ◌+◌, ◌-◌, ◌*◌, ◌/◌, ◌%◌, ◌^◌, Bool, not, ◌&&◌, ◌==◌, ltb, if◌then◌else◌, u64, sub64,
  store, for_range, test_bit, set_bit, clear_bit,
}
use Prim.Native.Nat.{min}
use zig_boot.Kernel.{Kernel}

abbrev pub page_size : ℕ
page_size = 4096

-- `PAGE_ALIGN`
abbrev pub page_align : ℕ → ℕ
page_align addr = u64 (addr + page_size - 1) / page_size * page_size

-- The address of the byte that holds the bit of a page.
abbrev pub byte_of : ℕ → Kernel → ℕ
byte_of page k = k.pmm_bitmap + page / 8

unfoldable pub pmm_mark_page : ℕ → Kernel → Kernel
pmm_mark_page page k =
    let a = byte_of page k in record k { mem = store k.mem a (set_bit (k.mem a) (page % 8)) }

unfoldable pub pmm_clear_page : ℕ → Kernel → Kernel
pmm_clear_page page k =
    let a = byte_of page k in record k { mem = store k.mem a (clear_bit (k.mem a) (page % 8)) }

unfoldable pub pmm_is_page_used : ℕ → Kernel → Bool
pmm_is_page_used page k = test_bit (k.mem (byte_of page k)) (page % 8)

-- `if (page < total_pages && pmm_is_page_used(page)) { pmm_clear_page(page); used_pages--; }`
pub clear_if_used : ℕ → Kernel → Kernel
clear_if_used page k =
    if ltb page k.total_pages && pmm_is_page_used page k
    then record (pmm_clear_page page k) { used_pages = sub64 k.used_pages 1 }
    else k

-- `if (page < total_pages && !pmm_is_page_used(page)) { pmm_mark_page(page); used_pages++; }`
pub mark_if_free : ℕ → Kernel → Kernel
mark_if_free page k =
    if ltb page k.total_pages && not (pmm_is_page_used page k)
    then record (pmm_mark_page page k) { used_pages = u64 (k.used_pages + 1) }
    else k

-- The body of the whole-byte loop of `pmm_mark_region_free`.
pub clear_byte : ℕ → Kernel → Kernel
clear_byte byte k =
    let a = k.pmm_bitmap + byte in
    let old = k.mem a in
    record k {
      mem = store k.mem a 0;
      used_pages =
          for_range 8 0 (λ i used. if test_bit old i then sub64 used 1 else used) k.used_pages;
    }

-- The three loops of `pmm_mark_region_free`, over pages `start_page` to `end_page`.
pub free_head : ℕ → ℕ → Kernel → Kernel
free_head start_page end_page k =
    if start_page % 8 == 0
    then k
    else for_range (min ((start_page / 8 + 1) * 8) end_page - start_page) start_page clear_if_used k

pub free_bytes : ℕ → ℕ → Kernel → Kernel
free_bytes start_page end_page k =
    let start_byte = if start_page % 8 == 0 then start_page / 8 else start_page / 8 + 1 in
    for_range (min (end_page / 8) k.bitmap_size - start_byte) start_byte clear_byte k

pub free_tail : ℕ → Kernel → Kernel
free_tail end_page k =
    if end_page % 8 == 0
    then k
    else for_range (end_page - end_page / 8 * 8) (end_page / 8 * 8) clear_if_used k

unfoldable pub pmm_mark_region_free : ℕ → ℕ → Kernel → Kernel
pmm_mark_region_free base length k =
    let start_page = base / page_size in
    let end_page = u64 (base + length) / page_size in
    free_tail end_page (free_bytes start_page end_page (free_head start_page end_page k))

unfoldable pub pmm_mark_region_used : ℕ → ℕ → Kernel → Kernel
pmm_mark_region_used base length k =
    let start_page = base / page_size in
    let end_page = u64 (base + length + page_size - 1) / page_size in
    for_range (end_page - start_page) start_page mark_if_free k

-- The loop of `pmm_alloc_page` at page `i`, with `n` rounds left; 0 is returned when it ends.
pub alloc_loop : ℕ → ℕ → Kernel → Kernel × ℕ
alloc_loop zero i k = (k, 0)
alloc_loop (suc n) i k =
    let rest = alloc_loop n (i + 1) k in
    if pmm_is_page_used i k
    then rest
    else (record (pmm_mark_page i k) { used_pages = u64 (k.used_pages + 1) }, u64 (i * page_size))

unfoldable pub pmm_alloc_page : Kernel → Kernel × ℕ
pmm_alloc_page k = alloc_loop k.total_pages 0 k

unfoldable pub pmm_free_page : ℕ → Kernel → Kernel
unfolding clear_if_used
pmm_free_page phys_addr k = clear_if_used (phys_addr / page_size) k
