-- ===== src/Heap/Start.antt =====
-- Where the heap starts, and how it stands to the page allocator and to very large sizes.
use zig_boot.Prelude.{
  ℕ, ◌+◌, ◌-◌, ◌*◌, ◌%◌, ◌^◌, ◌≤◌, ◌<◌, ◌≡◌, refl, inl, inr, true, false, arith, ◌==◌, leb, u64,
}
use zig_boot.Kernel.{Kernel}
use zig_boot.Pmm.{page_size, pmm_is_page_used, pmm_alloc_page}
use zig_boot.Pmm.Bitmap.{used, IsWellFormed}
use zig_boot.Pmm.Alloc.{pmm_alloc_page_lem}
use zig_boot.Heap.{round_up, heap_init, kmalloc}
use zig_boot.Heap.Alloc.{IsHeap}

-- After `heap_init` the heap starts on the first page boundary at or after the end of the bitmap
-- and is 16 MB long and empty, when the bitmap ends above 0 and below 2 ^ 62.
pub heap_init-IsHeap :
    (k : Kernel)
    → 0 < k.pmm_bitmap + k.bitmap_size
    → k.pmm_bitmap + k.bitmap_size < 2 ^ 62
    → let t = heap_init k in
      IsHeap t
      × (k.pmm_bitmap + k.bitmap_size ≤ t.heap_start)
      × (t.heap_start < k.pmm_bitmap + k.bitmap_size + page_size)
      × (t.heap_start % page_size ≡ 0)
      × (t.heap_current ≡ t.heap_start)
      × (t.heap_end ≡ t.heap_start + 16777216)
unfolding heap_init
heap_init-IsHeap k p l = (
  record {
    started = omega arith;
    aligned = omega arith;
    positive = omega arith;
    limit = omega arith;
  },
  omega arith,
  omega arith,
  omega arith,
  refl,
  omega arith,
)

alloc_lowest :
    (t : Kernel) (q : ℕ)
    → IsWellFormed t
    → q < t.total_pages
    → used t q ≡ false
    → ((p : ℕ) → p < q → used t p ≡ true)
    → (pmm_alloc_page t).1 ≡ q * page_size
alloc_lowest t q w h free low = elim (pmm_alloc_page_lem t w) [
  | inl a ↦
      let same : a.page ≡ q = ground (arith, a.lowest q, low a.page, a.was_free, free) in
      omega (arith, a.at, same)
  | inr (e, full) ↦ absurd (ground (arith, full q h, free))
]

heap_init-IsWellFormed : (k : Kernel) → IsWellFormed k → IsWellFormed (heap_init k)
unfolding heap_init pmm_is_page_used
heap_init-IsWellFormed k w = record {
  bytes = w.bytes;
  pages_fit = w.pages_fit;
  bitmap_fits = w.bitmap_fits;
  counted = w.counted;
}

-- `heap_init` reserves no page: where the lowest free page lies in the heap, the page allocator
-- hands it out.
pub heap_init-unreserved :
    (k : Kernel) (q : ℕ)
    → IsWellFormed k
    → q < k.total_pages
    → used k q ≡ false
    → ((p : ℕ) → p < q → used k p ≡ true)
    → let t = heap_init k in
      t.heap_start ≤ q * page_size
      → q * page_size < t.heap_end
      → let addr = (pmm_alloc_page t).1 in (t.heap_start ≤ addr) × (addr < t.heap_end)
unfolding heap_init pmm_is_page_used
heap_init-unreserved k q w h free low from to =
    let e = alloc_lowest (heap_init k) q (heap_init-IsWellFormed k w) h free low in
    (omega (arith, e, from), omega (arith, e, to))

-- A size within 15 of 2 ^ 64 is rounded up to 0: the pointer is handed out and nothing is reserved.
pub kmalloc_wraps :
    (size : ℕ) (k : Kernel)
    → 2 ^ 64 - 15 ≤ size
    → size < 2 ^ 64
    → k.heap_current < k.heap_end
    → k.heap_end < 2 ^ 64
    → kmalloc size k ≡ (k, k.heap_current)
unfolding kmalloc
kmalloc_wraps size k big w room l =
    let some_size : (size == 0) ≡ false = ground arith in
    let same : u64 (k.heap_current + round_up size) ≡ k.heap_current = omega arith in
    let fits : leb k.heap_end k.heap_current ≡ false = ground arith in
    rw (some_size, same, fits) refl
