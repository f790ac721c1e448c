-- ===== src/Boot/Start.antt =====
-- The memory phase of `kernel_main`: the parsing, the PMM, the recursive entry, the heap and its test.
use zig_boot.Prelude.{
  ℕ, ◌+◌, ◌*◌, ◌^◌, ◌≤◌, ◌<◌, ◌≡◌, ◌≢◌, refl, sym, ap, subst, true, not, arith, if◌then◌else◌,
  IsBytes, read32, Outcome, returns, divide_error, out_of_fuel,
}
use zig_boot.Kernel.{Kernel}
use zig_boot.Multiboot.{tag_type, entry_size, num_entries}
use zig_boot.Multiboot.Entries.{entries}
use zig_boot.Multiboot.Walk.{Parsed, no_map, trap, map, parse_multiboot_mmap-Parsed}
use zig_boot.Pmm.Bitmap.{used, IsWellFormed, Becomes}
use zig_boot.Pmm.Region.{overlaps}
use zig_boot.Pmm.Setup.{pmm_init, pmm_mark_free_regions}
use zig_boot.Pmm.Setup.Init.{Initialised}
use zig_boot.Pmm.Setup.Regions.{some_below, frees, in_use}
use zig_boot.Pmm.Setup.Boot.{IsBootInfo, free_pages, pmm_boot-Becomes, pmm_init-bitmap}
use zig_boot.Boot.{boot_pmm}

-- Parsing changes the console and the two totals alone.
pub record IsTotalled (k t : Kernel) : Type 0 where
  pub same : t ≡ record k {
    console = t.console;
    total_memory = t.total_memory;
    usable_memory = t.usable_memory;
  }

pub Parsed-returns :
    (stop : ℕ) (k : Kernel) (r : Outcome Kernel)
    → Parsed k stop r
    → tag_type k.mem stop ≡ 6
    → entry_size k.mem stop ≢ 0
    → (t : Kernel) × (r ≡ returns t) × IsTotalled k t
Parsed-returns stop k (returns t) (no_map z h) ram sized = absurd (omega arith)
Parsed-returns stop k divide_error (trap z h) ram sized = absurd (sized h)
Parsed-returns stop k (returns t) (map z h totals) ram sized =
    (t, refl, record { same = totals.rest })
Parsed-returns stop k out_of_fuel p ram sized = elim p [ ]

-- The PMM after its three passes over the information at `info`, whose memory map is at `stop`: a
-- page is free exactly if the map frees it and neither the kernel nor the bitmap needs it.
pub record IsReady (stop : ℕ) (k t : Kernel) : Type 0 where
  pub well_formed : IsWellFormed t
  pub past_kernel : k.kernel_end ≤ t.pmm_bitmap
  pub low : t.pmm_bitmap + t.bitmap_size < 2 ^ 62
  pub pages :
      (q : ℕ)
      → q < t.total_pages
      → used t q ≡ (
          if overlaps k.kernel_start (t.pmm_bitmap + t.bitmap_size) q
          then true
          else not (
              some_below
                (num_entries k.mem stop)
                (λ j. frees t.total_memory (entries k.mem stop j) q)))

-- What is asked of memory before the boot.
pub record IsBootable (fuel info stop : ℕ) (k : Kernel) : Type 0 where
  pub bytes : IsBytes k.mem
  pub order : k.kernel_start ≤ k.kernel_end
  pub kernel_low : k.kernel_end < 2 ^ 61
  pub info_low : info + read32 k.mem info < 2 ^ 61
  pub info_lem : IsBootInfo k.mem info (read32 k.mem info) stop
  pub enough : stop < info + 8 + fuel * 8

-- The two passes of the PMM.
pub Ready-after :
    (fuel info stop : ℕ) (k k1 : Kernel)
    → IsBootable fuel info stop k
    → IsTotalled k k1
    → (t : Kernel) × (pmm_mark_free_regions info (pmm_init info k1) ≡ returns t) × IsReady stop k t
Ready-after fuel info stop k k1 b h =
    subst
      (λ x.
        (t : Kernel) × (pmm_mark_free_regions info (pmm_init info x) ≡ returns t)
        × IsReady stop k t)
      (sym h.same) (done.0, done.1, ready)
  where
    x : Kernel
    x = record k {
      console = k1.console;
      total_memory = k1.total_memory;
      usable_memory = k1.usable_memory;
    }

    x0 : Kernel
    x0 = pmm_init info x

    both :
        Initialised info (read32 k.mem info) x x0
        × ((t : Kernel) × (pmm_mark_free_regions info x0 ≡ returns t)
            × Becomes (record x0 { console = t.console }) t (in_use x0 stop))
    both =
        pmm_boot-Becomes info stop x b.bytes b.order (omega (arith, b.kernel_low))
          (omega (arith, b.info_low)) b.info_lem

    done :
        (t : Kernel) × (pmm_mark_free_regions info x0 ≡ returns t)
        × Becomes (record x0 { console = t.console }) t (in_use x0 stop)
    done = both.1

    ready : IsReady stop k done.0
    ready =
        let init = both.0 in
        let (t, returned, become) = done in
        let bitmap : t.pmm_bitmap ≡ x0.pmm_bitmap =
          ap (λ (y : Kernel). y.pmm_bitmap) become.keeps.rest in
        let size : t.bitmap_size ≡ x0.bitmap_size =
          ap (λ (y : Kernel). y.bitmap_size) become.keeps.rest in
        record {
          well_formed = become.well_formed;
          past_kernel = omega (arith, bitmap, init.past_kernel);
          low = omega (
            arith,
            bitmap,
            size,
            pmm_init-bitmap info x b.kernel_low b.info_low,
            init.limited.0,
            init.pages,
            init.well_formed.bitmap_fits,
          );
          pages = free_pages init b.info_lem.map become;
        }

pub boot_pmm-IsReady :
    (fuel info stop : ℕ) (k : Kernel)
    → IsBootable fuel info stop k
    → (t : Kernel) × (boot_pmm fuel info k ≡ returns t) × IsReady stop k t
unfolding boot_pmm
boot_pmm-IsReady fuel info stop k b =
    let boot = b.info_lem in
    let parsed = parse_multiboot_mmap-Parsed fuel info stop k boot.tags b.enough in
    let (k1, e, totals) = Parsed-returns stop k _ parsed boot.ram boot.map.sized in
    rw e (Ready-after fuel info stop k k1 b totals)
