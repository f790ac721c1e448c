-- ===== src/Examples/Boot.antt =====
-- The theorems on the Multiboot2 information at a concrete one: at 0x1000, 72 bytes long, a command
-- line, then a memory map with one entry of 128 KB of available RAM, then the end tag.
use zig_boot.Prelude.{
  ℕ, ◌+◌, ◌<◌, ◌≤◌, ◌^◌, ◌≡◌, refl, inr, true, not, arith, ◌==◌, leb, ltb, ◌&&◌, if◌then◌else◌,
  Array, IsBytes, read16, read32, read64, returns, test_bit,
}
use zig_boot.Kernel.{Kernel}
use zig_boot.Multiboot.{num_entries, entry_at, parse_multiboot_mmap}
use zig_boot.Multiboot.Entries.{entries}
use zig_boot.Multiboot.Walk.{TagsTo, here, skip, Parsed, parse_multiboot_mmap-Parsed}
use zig_boot.Pmm.{pmm_is_page_used}
use zig_boot.Pmm.Count.{count}
use zig_boot.Pmm.Bitmap.{used, IsWellFormed}
use zig_boot.Pmm.Region.{overlaps}
use zig_boot.Pmm.Setup.{pmm_init, pmm_mark_free_regions}
use zig_boot.Pmm.Setup.Regions.{IsSafeMap, some_below, frees, skipped}
use zig_boot.Pmm.Setup.Boot.{pmm_boot}
use zig_boot.Examples.{console}

-- The bitmap of `machine` is at 0x3000, all ones.
abbrev pub memory : Array
memory a =
    if a == 0x1000
    then 72
    else if a == 0x1008
    then 1
    else if a == 0x100C
    then 9
    else if a == 0x1018
    then 6
    else if a == 0x101C
    then 40
    else if a == 0x1020
    then 24
    else if a == 0x1032
    then 2
    else if a == 0x1038
    then 1
    else if leb 0x3000 a && ltb a 0x3004
    then 255
    else 0

abbrev pub machine : Kernel
machine = record {
  console = console;
  mem = memory;
  kernel_start = 0x2000;
  kernel_end = 0x3000;
  pmm_bitmap = 0x3000;
  total_pages = 32;
  used_pages = 32;
  bitmap_size = 4;
  total_memory = 0x20000;
  usable_memory = 0;
  heap_start = 0;
  heap_current = 0;
  heap_end = 0;
  cpu_apic_ids = λ i. 0;
  cpu_count = 0;
}

pub memory-IsBytes : IsBytes memory
memory-IsBytes a = ground arith

pub map_at : TagsTo memory 0x1018 0x1008
unfolding read16 read32
map_at = skip (omega arith) (omega arith) (omega arith) (omega arith) refl (here refl (inr refl))

pub few_tags : skipped map_at < 100
unfolding skipped map_at
few_tags = omega arith

one_entry : num_entries memory 0x1018 ≡ 1
unfolding read16 read32
one_entry = refl

entry_place : entry_at memory 0x1018 0 ≡ 0x1028
unfolding read16 read32
entry_place = refl

entry_ends : (entries memory 0x1018 0).addr + (entries memory 0x1018 0).len < 2 ^ 64
unfolding read16 read32 read64
entry_ends = omega arith

pub safe : (bitmap : ℕ) → 0x1048 ≤ bitmap → IsSafeMap memory bitmap 0x1018
unfolding read16 read32
safe bitmap h = record {
  sized = omega arith;
  header = omega arith;
  below = λ i l.
      let first : i ≡ 0 = omega (arith, l, one_entry) in rw first (omega (arith, entry_place));
  no_wrap = λ i l. let first : i ≡ 0 = omega (arith, l, one_entry) in rw first entry_ends;
}

parse_multiboot_mmap-Parsed_example : Parsed machine 0x1018 (parse_multiboot_mmap 3 0x1000 machine)
parse_multiboot_mmap-Parsed_example =
    parse_multiboot_mmap-Parsed 3 0x1000 0x1018 machine map_at (omega arith)

machine-IsWellFormed : IsWellFormed machine
unfolding count pmm_is_page_used test_bit
machine-IsWellFormed = record {
  bytes = memory-IsBytes;
  pages_fit = omega arith;
  bitmap_fits = refl;
  counted = refl;
}

pmm_boot_example :
    (t : Kernel) × (pmm_mark_free_regions 0x1000 (pmm_init 0x1000 machine) ≡ returns t)
    × IsWellFormed t
    × ((q : ℕ)
        → q < t.total_pages
        → used t q ≡ (
            if overlaps 0x2000 (t.pmm_bitmap + t.bitmap_size) q
            then true
            else not (
                some_below
                  (num_entries memory 0x1018)
                  (λ j. frees t.total_memory (entries memory 0x1018 j) q))))
unfolding read16 read32
pmm_boot_example =
    pmm_boot 0x1000 0x1018 machine memory-IsBytes (omega arith) (omega arith) (omega arith)
      (record { tags = map_at; few = few_tags; ram = refl; map = safe 0x1048 (omega arith) })
