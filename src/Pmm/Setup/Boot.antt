-- ===== src/Pmm/Setup/Boot.antt =====
-- The two passes together: `pmm_init`, then `pmm_mark_free_regions` on the same information.
use mathlib.Core.Path.{ap₂}
use zig_boot.Prelude.{
  ℕ, ◌+◌, ◌≤◌, ◌<◌, ◌^◌, ◌≡◌, sym, ◌∙◌, ap, inl, Bool, true, false, ◌&&◌, arith, ltb, if◌then◌else◌,
  Array, read32, IsBytes, returns, not,
}
use zig_boot.Kernel.{Kernel}
use zig_boot.Multiboot.{tag_type, num_entries}
use zig_boot.Multiboot.Entries.{entries}
use zig_boot.Multiboot.Walk.{TagsTo}
use zig_boot.Pmm.Bitmap.{used, IsWellFormed, Becomes}
use zig_boot.Pmm.Step.{total-keeps}
use zig_boot.Pmm.Region.{overlaps}
use zig_boot.Pmm.Setup.{bitmap_addr, pmm_mark_free_regions, pmm_init}
use zig_boot.Pmm.Setup.Init.{Initialised, pmm_init-Initialised}
use zig_boot.Pmm.Setup.Regions.{IsSafeMap, skipped, in_use, frees, same_32, some_below}
use zig_boot.Pmm.Setup.Info.{TagsTo-same, IsSafeMap-same, some_frees-same}
use zig_boot.Pmm.Setup.Marked.{pmm_mark_free_regions-Becomes}

-- What is asked of the Multiboot2 information at `info`, of `size` bytes: a memory map at `stop`,
-- inside it, after fewer than a hundred other tags.
pub record IsBootInfo (m : Array) (info size stop : ℕ) : Type 0 where
  pub tags : TagsTo m stop (info + 8)
  pub few : skipped tags < 100
  pub ram : tag_type m stop ≡ 6
  pub map : IsSafeMap m (info + size) stop

outcome :
    {l o o' f f' u v : Bool}
    → v ≡ (if l && o then true else if f then false else u)
    → l ≡ true
    → o ≡ o'
    → f ≡ f'
    → u ≡ true
    → v ≡ (if o' then true else not f')
outcome e a b c d = ground arith

-- After `pmm_init` all pages are in use, so only the map and the kernel decide.
pub free_pages :
    {info size stop : ℕ} {k k0 t : Kernel}
    → Initialised info size k k0
    → IsSafeMap k.mem (info + size) stop
    → Becomes (record k0 { console = t.console }) t (in_use k0 stop)
    → (q : ℕ) → q < t.total_pages
    → used t q ≡ (
        if overlaps k.kernel_start (t.pmm_bitmap + t.bitmap_size) q
        then true
        else not (
            some_below
              (num_entries k.mem stop)
              (λ j. frees t.total_memory (entries k.mem stop j) q)))
free_pages {info} {size} {stop} {k} {k0} {t} init safe b q inside =
    outcome {l = ltb q k0.total_pages} (b.pages q) (ground (arith, total))
      (kernel_at start (ap₂ ◌+◌ bitmap room))
      (some_frees-same k.mem k0.mem (info + size) same k0.total_memory stop q safe
        ∙ ap (λ m. some_below (num_entries k.mem stop) (λ j. frees m (entries k.mem stop j) q))
            (sym memory))
      (init.all_used q (omega (arith, total)))
  where
    start : k0.kernel_start ≡ k.kernel_start
    start = init.symbols.0

    bitmap : k0.pmm_bitmap ≡ t.pmm_bitmap
    bitmap = sym (ap (λ (x : Kernel). x.pmm_bitmap) b.keeps.rest)

    room : k0.bitmap_size ≡ t.bitmap_size
    room = sym (ap (λ (x : Kernel). x.bitmap_size) b.keeps.rest)

    memory : t.total_memory ≡ k0.total_memory
    memory = ap (λ (x : Kernel). x.total_memory) b.keeps.rest

    total : t.total_pages ≡ k0.total_pages
    total = total-keeps b.keeps

    same : (a : ℕ) → a < info + size → k0.mem a ≡ k.mem a
    same a below = init.untouched a (inl (omega (arith, init.past_info)))

    kernel_at : {a b c d : ℕ} → a ≡ b → c ≡ d → overlaps a c q ≡ overlaps b d q
    kernel_at e f = ap₂ (λ x y. overlaps x y q) e f

-- Both passes return, and what `pmm_init` leaves becomes the state in which the map has decided.
pub pmm_boot-Becomes :
    (info stop : ℕ) (k : Kernel)
    → IsBytes k.mem
    → k.kernel_start ≤ k.kernel_end
    → k.kernel_end < 2 ^ 63
    → info + read32 k.mem info < 2 ^ 63
    → IsBootInfo k.mem info (read32 k.mem info) stop
    → let k0 = pmm_init info k in
      Initialised info (read32 k.mem info) k k0
      × ((t : Kernel) × (pmm_mark_free_regions info k0 ≡ returns t)
          × Becomes (record k0 { console = t.console }) t (in_use k0 stop))
pmm_boot-Becomes info stop k b order h l boot = (init, done)
  where
    k0 : Kernel
    k0 = pmm_init info k

    init : Initialised info (read32 k.mem info) k k0
    init = pmm_init-Initialised info k b h l

    bound : ℕ
    bound = info + read32 k.mem info

    same : (a : ℕ) → a < bound → k0.mem a ≡ k.mem a
    same a below = init.untouched a (inl (omega (arith, init.past_info)))

    tags : (r : TagsTo k0.mem stop (info + 8)) × (skipped r ≡ skipped boot.tags)
    tags = TagsTo-same k.mem k0.mem bound same boot.tags boot.map.header

    done :
        (t : Kernel) × (pmm_mark_free_regions info k0 ≡ returns t)
        × Becomes (record k0 { console = t.console }) t (in_use k0 stop)
    done =
        pmm_mark_free_regions-Becomes info stop k0 tags.0 init.well_formed init.pages
          (omega (arith, tags.1, boot.few))
          (rw (same_32 k.mem k0.mem bound same stop (omega (arith, boot.map.header))) boot.ram)
          (IsSafeMap-same k.mem k0.mem bound same k0.pmm_bitmap stop init.past_info boot.map)
          (omega (arith, init.symbols.0, init.past_kernel))
          (omega (arith, init.low, init.limited.0, init.pages, init.well_formed.bitmap_fits))

-- The PMM is set up for RAM: after both passes a page is free exactly if an available region of the
-- memory map frees it, and it overlaps neither the kernel nor the bitmap nor what stands between them.
pub pmm_boot :
    (info stop : ℕ) (k : Kernel)
    → IsBytes k.mem
    → k.kernel_start ≤ k.kernel_end
    → k.kernel_end < 2 ^ 63
    → info + read32 k.mem info < 2 ^ 63
    → IsBootInfo k.mem info (read32 k.mem info) stop
    → (t : Kernel) × (pmm_mark_free_regions info (pmm_init info k) ≡ returns t)
      × IsWellFormed t
      × ((q : ℕ)
          → q < t.total_pages
          → used t q ≡ (
              if overlaps k.kernel_start (t.pmm_bitmap + t.bitmap_size) q
              then true
              else not (
                  some_below
                    (num_entries k.mem stop)
                    (λ j. frees t.total_memory (entries k.mem stop j) q))))
pmm_boot info stop k b order h l boot =
    let (init, (t, returned, become)) = pmm_boot-Becomes info stop k b order h l boot in
    (t, returned, become.well_formed, free_pages init boot.map become)

-- The bitmap starts less than a page past the kernel and the information.
pub pmm_init-bitmap :
    (info : ℕ) (k : Kernel)
    → k.kernel_end < 2 ^ 61
    → info + read32 k.mem info < 2 ^ 61
    → (pmm_init info k).pmm_bitmap < 2 ^ 61 + 4096
unfolding pmm_init bitmap_addr
pmm_init-bitmap info k h l = ground arith
