-- ===== src/Pmm/Setup/Marked.antt =====
-- `pmm_mark_free_regions` as a whole.
use mathlib.Core.Path.{ap₂}
use zig_boot.Prelude.{
  ℕ, ◌+◌, ◌/◌, ◌≤◌, ◌<◌, ◌^◌, ◌≡◌, ap, Bool, true, false, ◌&&◌, arith, ltb, if◌then◌else◌, u64,
  sub64, returns, for_range,
}
use zig_boot.Console.{Console, text}
use zig_boot.Kernel.{Kernel, puts}
use zig_boot.Multiboot.{tag_type, num_entries}
use zig_boot.Multiboot.Walk.{TagsTo}
use zig_boot.Pmm.{pmm_is_page_used}
use zig_boot.Pmm.Bitmap.{used, IsWellFormed, Becomes}
use zig_boot.Pmm.Step.{Becomes-ext, Becomes-trans}
use zig_boot.Pmm.Region.{overlaps, pmm_mark_region_used-Becomes}
use zig_boot.Pmm.Setup.{free_entry_at, mark_kernel, pmm_mark_free_regions}
use zig_boot.Pmm.Setup.Regions.{
  IsSafeMap, skipped, free_walk_lem, free_entries-Becomes, in_use, freed,
}

IsWellFormed-console :
    (k : Kernel) (c : Console) → IsWellFormed k → IsWellFormed (record k { console = c })
unfolding pmm_is_page_used
IsWellFormed-console k c w = record {
  bytes = w.bytes;
  pages_fit = w.pages_fit;
  bitmap_fits = w.bitmap_fits;
  counted = w.counted;
}

-- Printing before or after makes no difference to the pages.
Becomes-console :
    {k t : Kernel} {f : ℕ → Bool} (c : Console)
    → Becomes k t f
    → Becomes (record k { console = c }) (record t { console = c }) f
unfolding pmm_is_page_used
Becomes-console {k} {t} c b = record {
  well_formed = IsWellFormed-console t c b.well_formed;
  keeps = record {
    rest = ap (λ (x : Kernel). record x { console = c }) b.keeps.rest;
    outside = b.keeps.outside;
  };
  pages = b.pages;
}

mark_kernel-Becomes :
    (k : Kernel)
    → IsWellFormed k
    → k.kernel_start ≤ k.pmm_bitmap + k.bitmap_size
    → k.pmm_bitmap + k.bitmap_size + 4096 < 2 ^ 64
    → Becomes
        (record k { console = (mark_kernel k).console })
        (mark_kernel k)
        (λ q.
          if ltb q k.total_pages && overlaps k.kernel_start (k.pmm_bitmap + k.bitmap_size) q
          then true
          else used k q)
unfolding mark_kernel pmm_is_page_used
mark_kernel-Becomes k w h l =
    let len = sub64 (u64 (k.pmm_bitmap + k.bitmap_size)) k.kernel_start in
    let end : k.kernel_start + len ≡ k.pmm_bitmap + k.bitmap_size = omega arith in
    Becomes-console _ (
      Becomes-ext
        (pmm_mark_region_used-Becomes k.kernel_start len _ (IsWellFormed-console k _ w)
          (omega arith))
        (λ q. rw end))

marked :
    (q : ℕ) {n m a b c d : ℕ} {u v : Bool}
    → n ≡ m
    → a ≡ b
    → c ≡ d
    → u ≡ v
    → (if ltb q n && overlaps a c q then true else u)
      ≡ (if ltb q m && overlaps b d q then true else v)
marked q e f g h = rw (e, f, g, h)

-- On a well-formed PMM and a safe map with fewer than a hundred tags before it, the function returns,
-- and the pages in use are those that overlap the kernel or the bitmap, and those that were in use
-- and that no entry of the map frees.
pub pmm_mark_free_regions-Becomes :
    (info stop : ℕ) (k : Kernel) (tags : TagsTo k.mem stop (info + 8))
    → IsWellFormed k
    → k.total_pages ≡ k.total_memory / 4096
    → skipped tags < 100
    → tag_type k.mem stop ≡ 6
    → IsSafeMap k.mem k.pmm_bitmap stop
    → k.kernel_start ≤ k.pmm_bitmap + k.bitmap_size
    → k.pmm_bitmap + k.bitmap_size + 4096 < 2 ^ 64
    → (t : Kernel) × (pmm_mark_free_regions info k ≡ returns t)
      × Becomes (record k { console = t.console }) t (in_use k stop)
unfolding pmm_mark_free_regions pmm_is_page_used
pmm_mark_free_regions-Becomes info stop k tags w pages few ram safe h l =
    (mark_kernel t1, rw (free_walk_lem 100 k1 tags few ram safe.sized), all)
  where
    k1 : Kernel
    k1 = puts (text "[PMM] Marking free regions...\n") k

    t1 : Kernel
    t1 = for_range (num_entries k.mem stop) 0 (free_entry_at stop) k1

    rest : Becomes k1 t1 (λ q. if freed k stop (num_entries k.mem stop) q then false else used k q)
    rest = free_entries-Becomes stop k1 (IsWellFormed-console k k1.console w) pages (record {
      sized = safe.sized;
      header = safe.header;
      below = safe.below;
      no_wrap = safe.no_wrap;
    })

    c : Console
    c = (mark_kernel t1).console

    all : Becomes (record k { console = c }) (mark_kernel t1) (in_use k stop)
    all =
        let same = rest.keeps.rest in
        let total : t1.total_pages ≡ k.total_pages = ap (λ (x : Kernel). x.total_pages) same in
        let start : t1.kernel_start ≡ k.kernel_start = ap (λ (x : Kernel). x.kernel_start) same in
        let bitmap : t1.pmm_bitmap ≡ k.pmm_bitmap = ap (λ (x : Kernel). x.pmm_bitmap) same in
        let size : t1.bitmap_size ≡ k.bitmap_size = ap (λ (x : Kernel). x.bitmap_size) same in
        Becomes-trans _ (Becomes-console c rest)
          (mark_kernel-Becomes t1 rest.well_formed (omega arith) (omega arith))
          (λ q. marked q total start (ap₂ ◌+◌ bitmap size) (rest.pages q))
