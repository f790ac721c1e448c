-- ===== src/Examples.antt =====
-- The theorems at concrete inputs: a machine with 128 KB of RAM and a kernel at 0x2000.
pub mod Boot
mod Machines
mod Handover
mod Paging
use zig_boot.Prelude.{
  ℕ, suc, ◌+◌, ◌*◌, ◌<◌, ◌≡◌, refl, ◌⊎◌, inl, inr, true, false, [], ◌∷◌, arith, ◌==◌, ◌&&◌,
  if◌then◌else◌, test_bit, one_bits, ◌^◌, ◌-◌, ◌%◌, ◌≤◌,
}
use zig_boot.Serial.{Serial}
use zig_boot.Serial.{transmitted}
use zig_boot.Vga.{Vga, vga_write}
use zig_boot.Vga.Cursor.{IsOnScreen, vga_write-IsContained}
use zig_boot.Console
use zig_boot.Console.{Console}
use zig_boot.Console.Text.{sent, until_nul, crlf, puts_lem}
use zig_boot.Console.Print.{Printed, print_dec_64-Printed}
use zig_boot.Kernel.{Kernel}
use zig_boot.Heap.{heap_init, kmalloc}
use zig_boot.Heap.Alloc.{IsHeap, run, Packed, Packed-run}
use zig_boot.Heap.Start.{heap_init-unreserved, kmalloc_wraps}
use zig_boot.Pmm.{pmm_is_page_used, pmm_alloc_page, pmm_free_page, pmm_mark_region_free}
use zig_boot.Pmm.Count.{count}
use zig_boot.Pmm.Bitmap.{used, IsWellFormed, Becomes}
use zig_boot.Pmm.Alloc.{Allocated, IsFull, pmm_alloc_page_lem, pmm_free_page-pmm_alloc_page}
use zig_boot.Pmm.Region.{with_range, freed_from, pmm_mark_region_free-Becomes}

abbrev serial : Serial
serial = record { busy = λ n. 0; sent = 0; log = [] }

abbrev screen : Vga
screen = record { row = 24; column = 79; color = 7; buffer = λ j. j }

abbrev pub console : Console
console = record { serial = serial; vga = screen }

-- 16 pages of which page 8 alone is in use, and a heap with 1000 bytes left.
abbrev pub small : Kernel
small = record {
  console = console;
  mem = λ a. if a == 0x3001 then 1 else 0;
  kernel_start = 0x2000;
  kernel_end = 0x3000;
  pmm_bitmap = 0x3000;
  total_pages = 16;
  used_pages = 1;
  bitmap_size = 2;
  total_memory = 0x10000;
  usable_memory = 0x10000;
  heap_start = 0x4000;
  heap_current = 0x4000;
  heap_end = 0x4000 + 1000;
  cpu_apic_ids = λ i. 0;
  cpu_count = 0;
}

small-IsWellFormed : IsWellFormed small
unfolding count pmm_is_page_used test_bit
small-IsWellFormed = record {
  bytes = λ a. ground arith;
  pages_fit = omega arith;
  bitmap_fits = refl;
  counted = refl;
}

pmm_alloc_page_lem_example :
    Allocated small (pmm_alloc_page small).0 (pmm_alloc_page small).1
    ⊎ (pmm_alloc_page small ≡ (small, 0)) × IsFull small
pmm_alloc_page_lem_example = pmm_alloc_page_lem small small-IsWellFormed

pmm_free_page-pmm_alloc_page_example :
    let (t, addr) = pmm_alloc_page small in
    let u = pmm_free_page addr t in Becomes small u (used small) × (u.used_pages ≡ 1)
pmm_free_page-pmm_alloc_page_example =
    pmm_free_page-pmm_alloc_page small small-IsWellFormed (omega arith)

pmm_mark_region_free-Becomes_example :
    Becomes small
      (pmm_mark_region_free 0x7000 0x3000 small)
      (with_range (freed_from 7 10) 10 false small)
pmm_mark_region_free-Becomes_example =
    pmm_mark_region_free-Becomes 0x7000 0x3000 small small-IsWellFormed (omega arith) (omega arith)

small-IsHeap : IsHeap small
small-IsHeap = record {
  started = omega arith;
  aligned = refl;
  positive = omega arith;
  limit = omega arith;
}

Packed-run_example :
    Packed 0x4000 0x43E8
      (run (100 ∷ 2000 ∷ 8 ∷ []) [] small).0.heap_current
      (run (100 ∷ 2000 ∷ 8 ∷ []) [] small).1
Packed-run_example = Packed-run (100 ∷ 2000 ∷ 8 ∷ []) small small-IsHeap (omega arith)

kmalloc_wraps_example : kmalloc (2 ^ 64 - 1) small ≡ (small, 0x4000)
kmalloc_wraps_example =
    kmalloc_wraps (2 ^ 64 - 1) small (omega arith) (omega arith) (omega arith) (omega arith)

-- The eight pages below the heap of `full_below` are in use, so the first free page is in the heap.
abbrev full_below : Kernel
full_below = record small { mem = λ a. if a == 0x3000 then 255 else 0; used_pages = 8 }

full_below-IsWellFormed : IsWellFormed full_below
unfolding count pmm_is_page_used test_bit
full_below-IsWellFormed = record {
  bytes = λ a. ground arith;
  pages_fit = omega arith;
  bitmap_fits = refl;
  counted = refl;
}

heap_init-unreserved_example :
    let t = heap_init full_below in
    let addr = (pmm_alloc_page t).1 in (t.heap_start ≤ addr) × (addr < t.heap_end)
unfolding heap_init pmm_is_page_used
heap_init-unreserved_example =
    heap_init-unreserved full_below 8 full_below-IsWellFormed (omega arith)
      (unfold test_bit in refl) (λ p l. ground (arith, one_bits (p % 8) (omega arith)))
      (omega arith) (omega arith)

puts_lem_example :
    (sent (Console.puts (0x41 ∷ 0x0A ∷ []) console) ≡ 0x41 ∷ 0x0D ∷ 0x0A ∷ [])
    × ((Console.puts (0x41 ∷ 0x0A ∷ []) console).vga ≡ vga_write (0x41 ∷ 0x0A ∷ []) screen)
unfolding transmitted until_nul crlf
puts_lem_example = puts_lem (0x41 ∷ 0x0A ∷ []) console

print_dec_64-Printed_example : Printed 0 console (Console.print_dec_64 0 console)
print_dec_64-Printed_example = print_dec_64-Printed 0 console (omega arith)

screen-IsOnScreen : IsOnScreen screen
screen-IsOnScreen = record { in_rows = omega arith; in_columns = omega arith }

vga_write-IsContained_example :
    let w = vga_write (0x41 ∷ 0x0A ∷ 0x42 ∷ []) screen in
    IsOnScreen w × ((j : ℕ) → 2000 ≤ j → w.buffer j ≡ j)
vga_write-IsContained_example =
    vga_write-IsContained (0x41 ∷ 0x0A ∷ 0x42 ∷ []) screen screen-IsOnScreen
