-- ===== src/Pmm/Alloc.antt =====
-- `pmm_alloc_page` takes the lowest free page, and `pmm_free_page` gives it back.
use zig_boot.Prelude.{
  ℕ, zero, suc, ◌+◌, ◌*◌, ◌/◌, ◌<◌, ◌≡◌, refl, ◌⊎◌, inl, inr, true, false, arith, ◌==◌,
  if◌then◌else◌, Bool-cases,
}
use zig_boot.Kernel.{Kernel}
use zig_boot.Pmm.{page_size, pmm_is_page_used, alloc_loop, pmm_alloc_page, pmm_free_page}
use zig_boot.Pmm.Count.{count_ext, count_update, count_full}
use zig_boot.Pmm.Bitmap.{used, IsWellFormed, Becomes}
use zig_boot.Pmm.Step.{Becomes-trans, mark-Becomes, clear_if_used-Becomes, total-keeps}

-- The page at `addr` was free in `k`, no lower page was, and it is in use in `t`.
pub record Allocated (k t : Kernel) (addr : ℕ) : Type 0 where
  pub page : ℕ
  pub at : addr ≡ page * page_size
  pub in_range : page < k.total_pages
  pub was_free : used k page ≡ false
  pub lowest : (q : ℕ) → q < page → used k q ≡ true
  pub becomes : Becomes k t (λ q. if page == q then true else used k q)

abbrev pub IsFull : Kernel → Type 0
IsFull k = (q : ℕ) → q < k.total_pages → used k q ≡ true

alloc_loop_lem :
    (n i : ℕ) (k : Kernel)
    → IsWellFormed k
    → i + n ≡ k.total_pages
    → ((q : ℕ) → q < i → used k q ≡ true)
    → Allocated k (alloc_loop n i k).0 (alloc_loop n i k).1 ⊎ (alloc_loop n i k ≡ (k, 0)) × IsFull k
unfolding alloc_loop
alloc_loop_lem zero i k w e low = inr (refl, λ q h. low q (omega arith))
alloc_loop_lem (suc n) i k w e low = elim (Bool-cases (used k i)) [
  | inl taken ↦ rw taken (alloc_loop_lem n (i + 1) k w (omega arith) (λ q h. ground (arith, low q)))
  | inr free ↦ rw free (
      inl (record {
        page = i;
        at = omega (arith, w.pages_fit);
        in_range = omega arith;
        was_free = free;
        lowest = low;
        becomes = mark-Becomes i k w (omega arith) free;
      }))
]

-- Either the lowest free page is taken and its address returned, or every page is in use, 0 is
-- returned and nothing changes.
pub pmm_alloc_page_lem :
    (k : Kernel)
    → IsWellFormed k
    → Allocated k (pmm_alloc_page k).0 (pmm_alloc_page k).1 ⊎ (pmm_alloc_page k ≡ (k, 0)) × IsFull k
unfolding pmm_alloc_page
pmm_alloc_page_lem k w = alloc_loop_lem k.total_pages 0 k w (omega arith) (λ q h. elim h [ ])

-- While `used_pages` is below `total_pages` the allocation takes a page.
pub pmm_alloc_page-Allocated :
    (k : Kernel)
    → IsWellFormed k
    → k.used_pages < k.total_pages
    → Allocated k (pmm_alloc_page k).0 (pmm_alloc_page k).1
pmm_alloc_page-Allocated k w h = elim (pmm_alloc_page_lem k w) [
  | inl a ↦ a
  | inr (e, full) ↦ absurd (omega (arith, w.counted, count_full k.total_pages (used k) full))
]

pages_counted : {k t : Kernel} → IsWellFormed k → Becomes k t (used k) → t.used_pages ≡ k.used_pages
unfolding pmm_is_page_used
pages_counted {k} {t} w b =
    rw (b.well_formed.counted, w.counted, total-keeps b.keeps)
      (count_ext k.total_pages (used k) (used t) (λ q h. b.pages q))

-- Freeing the page that was just allocated gives back the pages and the counter as they were.
pub pmm_free_page-pmm_alloc_page :
    (k : Kernel)
    → IsWellFormed k
    → k.used_pages < k.total_pages
    → let (t, addr) = pmm_alloc_page k in
      let u = pmm_free_page addr t in Becomes k u (used k) × (u.used_pages ≡ k.used_pages)
unfolding pmm_free_page
pmm_free_page-pmm_alloc_page k w h =
    let a = pmm_alloc_page-Allocated k w h in
    let (t, addr) = pmm_alloc_page k in
    let page_of : addr / page_size ≡ a.page = omega (arith, a.at) in
    let freed = clear_if_used-Becomes (addr / page_size) t a.becomes.well_formed in
    let b : Becomes k (pmm_free_page addr t) (used k) = Becomes-trans _ a.becomes freed (λ q.
      ground
        (arith, page_of, a.becomes.pages q, total-keeps a.becomes.keeps, a.in_range, a.was_free)) in
    (b, pages_counted w b)

-- Where page 0 is free it is the lowest, so it is taken and its address is 0, which is also what
-- the function returns when it is out of memory.
pub pmm_alloc_page_zero :
    (k : Kernel)
    → IsWellFormed k
    → 0 < k.total_pages
    → used k 0 ≡ false
    → ((pmm_alloc_page k).1 ≡ 0)
      × ((pmm_alloc_page k).0.used_pages ≡ k.used_pages + 1)
      × (used (pmm_alloc_page k).0 0 ≡ true)
pmm_alloc_page_zero k w h free = elim (pmm_alloc_page_lem k w) [
  | inl a ↦
      let is_zero : a.page ≡ 0 = ground (arith, a.lowest 0) in
      let b = a.becomes in
      (
        omega (arith, a.at),
        ground (
          arith,
          b.well_formed.counted,
          total-keeps b.keeps,
          count_update k.total_pages (used k) (used (pmm_alloc_page k).0) a.page true a.in_range
              (λ q l. b.pages q),
        ),
        ground (arith, b.pages 0),
      )
  | inr (e, full) ↦ absurd (ground (arith, full 0))
]
