-- ===== src/Heap.antt =====
-- c/kernel/minimal_step9.c, the kernel heap: a bump allocator over 16 MB after the bitmap.
pub mod Alloc
pub mod Start
pub mod Trial
use zig_boot.Prelude.{ℕ, ◌+◌, ◌*◌, ◌/◌, ◌^◌, ◌==◌, leb, if◌then◌else◌, u64, clear_low}
use zig_boot.Console.{text}
use zig_boot.Kernel.{Kernel, puts, print_hex_64}
use zig_boot.Pmm.{page_align}

unfoldable pub heap_init : Kernel → Kernel
heap_init k0 =
    let k = puts (text "\n[HEAP] Initializing kernel heap...\n") k0 in
    let start = page_align (u64 (k.pmm_bitmap + k.bitmap_size)) in
    let k1 = record k {
      heap_start = start;
      heap_current = start;
      heap_end = u64 (start + 16 * 1024 * 1024);
    } in
    puts (text "[HEAP] Kernel heap initialized!\n") (
      puts (text "[HEAP] Heap size: 16 MB\n")
        (puts (text "\n") (print_hex_64 start (puts (text "[HEAP] Heap start: ") k1))))

-- `size = (size + 15) & ~15UL`
abbrev pub round_up : ℕ → ℕ
round_up size = clear_low 4 (u64 (size + 15))

-- The pointer is 0 when the allocation fails; `heap_current` has moved all the same.
unfoldable pub kmalloc : ℕ → Kernel → Kernel × ℕ
kmalloc size k =
    let k1 = record k { heap_current = u64 (k.heap_current + round_up size) } in
    if size == 0
    then (k, 0)
    else if leb k1.heap_end k1.heap_current
    then (puts (text "[HEAP ERROR] Out of heap memory!\n") k1, 0)
    else (k1, k.heap_current)

-- `kfree` does nothing.
unfoldable pub kfree : ℕ → Kernel → Kernel
kfree ptr k = k
