-- ===== src/Pmm/Region.antt =====
-- Whole regions: which pages `pmm_mark_region_used` and `pmm_mark_region_free` change.
use Prim.Native.Nat.{min}
use zig_boot.Prelude.{
  ℕ, ◌+◌, ◌-◌, ◌*◌, ◌/◌, ◌%◌, ◌≤◌, ◌<◌, ◌^◌, ◌≡◌, refl, ◌∙◌, inl, inr, Bool, true, false, not, ◌&&◌,
  arith, ◌==◌, ltb, leb, if◌then◌else◌, u64, Bool-cases, for_range, for_range_inv, for_range-zero,
}
use zig_boot.Kernel.{Kernel}
use zig_boot.Pmm.{
  page_size, clear_if_used, mark_if_free, clear_byte, free_head, free_bytes, free_tail,
  pmm_mark_region_free, pmm_mark_region_used,
}
use zig_boot.Pmm.Bitmap.{used, IsWellFormed, Becomes}
use zig_boot.Pmm.Step.{
  Becomes-same, Becomes-ext, Becomes-trans, clear_if_used-Becomes, mark_if_free-Becomes,
  clear_byte-Becomes, total-keeps,
}

-- The pages from `lo` to before `hi` are set to `b`, the others are as in `k`.
abbrev pub with_range : ℕ → ℕ → Bool → Kernel → ℕ → Bool
with_range lo hi b k q = if leb lo q && ltb q hi then b else used k q

pages_loop :
    (body : ℕ → Kernel → Kernel) (b : Bool)
    → ((i : ℕ) (t : Kernel)
        → IsWellFormed t
        → Becomes t (body i t) (λ q. if i == q && ltb i t.total_pages then b else used t q))
    → (n lo hi : ℕ) (k : Kernel) → lo + n ≡ hi
    → IsWellFormed k
    → Becomes k
        (for_range n lo body k)
        (λ q. if ltb q k.total_pages then with_range lo hi b k q else used k q)
pages_loop body b step n lo hi k e w =
    for_range_inv
      (λ i t. Becomes k t (λ q. if ltb q k.total_pages then with_range lo i b k q else used k q))
      body n lo hi k e
      (λ i t low high h.
        Becomes-trans _ h (step i t h.well_formed)
          (λ q. ground (arith, h.pages q, total-keeps h.keeps)))
      (Becomes-same k _ w (λ q. ground arith))

-- Does the page overlap the bytes from `lo` to before `hi`?
abbrev pub overlaps : ℕ → ℕ → ℕ → Bool
overlaps lo hi q = ltb lo ((q + 1) * 4096) && ltb (q * 4096) hi

-- Every page that overlaps the region and is below `total_pages` is in use afterwards, the other
-- pages are as before, and the invariant is kept.
pub pmm_mark_region_used-Becomes :
    (base length : ℕ) (k : Kernel)
    → IsWellFormed k
    → base + length + 4095 < 2 ^ 64
    → Becomes k
        (pmm_mark_region_used base length k)
        (λ q. if ltb q k.total_pages && overlaps base (base + length) q then true else used k q)
unfolding pmm_mark_region_used
pmm_mark_region_used-Becomes base length k w h =
    Becomes-ext
      (pages_loop mark_if_free true mark_if_free-Becomes _ (base / page_size)
        (u64 (base + length + page_size - 1) / page_size) k (omega arith) w)
      (λ q. ground arith)

-- Where the pages that are freed begin: at the start of the region, unless it starts inside a byte
-- of the bitmap and ends before the next byte; then at the first page of that byte.
abbrev pub freed_from : ℕ → ℕ → ℕ
freed_from start_page end_page =
    if not (start_page % 8 == 0) && start_page / 8 == end_page / 8
    then end_page / 8 * 8
    else start_page

module _ (start_page end_page : ℕ) (ordered : start_page ≤ end_page) where
  abbrev head_end : ℕ
  head_end = if start_page % 8 == 0 then start_page else min ((start_page / 8 + 1) * 8) end_page

  abbrev first_byte : ℕ
  first_byte = if start_page % 8 == 0 then start_page / 8 else start_page / 8 + 1

  free_head-Becomes :
      (k : Kernel)
      → IsWellFormed k
      → end_page ≤ k.total_pages
      → Becomes k (free_head start_page end_page k) (with_range start_page head_end false k)
  unfolding free_head
  free_head-Becomes k w inside = elim (Bool-cases (start_page % 8 == 0)) [
    | inl e ↦ rw e (Becomes-same k _ w (λ q. ground arith))
    | inr e ↦ rw e (
        Becomes-ext
          (pages_loop clear_if_used false clear_if_used-Becomes _ start_page
            (min ((start_page / 8 + 1) * 8) end_page) k (ground arith) w)
          (λ q. ground arith))
  ]

  free_tail-Becomes :
      (k : Kernel)
      → IsWellFormed k
      → end_page ≤ k.total_pages
      → Becomes k (free_tail end_page k) (with_range (end_page / 8 * 8) end_page false k)
  unfolding free_tail
  free_tail-Becomes k w inside = elim (Bool-cases (end_page % 8 == 0)) [
    | inl e ↦ rw e (Becomes-same k _ w (λ q. ground arith))
    | inr e ↦ rw e (
        Becomes-ext
          (pages_loop clear_if_used false clear_if_used-Becomes _ (end_page / 8 * 8) end_page k
            (omega arith) w)
          (λ q. ground arith))
  ]

  bytes_loop :
      (n lo hi : ℕ) (k : Kernel)
      → lo + n ≡ hi
      → hi * 8 ≤ k.total_pages
      → IsWellFormed k
      → Becomes k (for_range n lo clear_byte k) (with_range (lo * 8) (hi * 8) false k)
  bytes_loop n lo hi k e inside w =
      for_range_inv (λ i t. Becomes k t (with_range (lo * 8) (i * 8) false k)) clear_byte n lo hi k
        e
        (λ i t low high h.
          Becomes-trans _ h
            (clear_byte-Becomes i t h.well_formed (omega (arith, total-keeps h.keeps)))
            (λ q. ground (arith, h.pages q)))
        (Becomes-same k _ w (λ q. ground arith))

  free_bytes-Becomes :
      (k : Kernel)
      → IsWellFormed k
      → end_page ≤ k.total_pages
      → Becomes k
          (free_bytes start_page end_page k)
          (with_range (first_byte * 8) (end_page / 8 * 8) false k)
  unfolding free_bytes
  free_bytes-Becomes k w inside = elim (Bool-cases (leb first_byte (end_page / 8))) [
    | inl e ↦ bytes_loop _ first_byte (end_page / 8) k (ground arith) (omega arith) w
    | inr e ↦
        let none_left : min (end_page / 8) k.bitmap_size - first_byte ≡ 0 = ground arith in
        rw (for_range-zero _ first_byte clear_byte k none_left)
          (Becomes-same k _ w (λ q. ground arith))
  ]

  free_pages-Becomes :
      (k : Kernel)
      → IsWellFormed k
      → end_page ≤ k.total_pages
      → Becomes k
          (free_tail end_page (free_bytes start_page end_page (free_head start_page end_page k)))
          (with_range (freed_from start_page end_page) end_page false k)
  free_pages-Becomes k w inside =
      let a = free_head-Becomes k w inside in
      let t = free_head start_page end_page k in
      let b = free_bytes-Becomes t a.well_formed (rw (total-keeps a.keeps) inside) in
      let u = free_bytes start_page end_page t in
      let same : u.total_pages ≡ k.total_pages = total-keeps b.keeps ∙ total-keeps a.keeps in
      let c = free_tail-Becomes u b.well_formed (rw same inside) in
      Becomes-trans _ (Becomes-trans _ a b (λ q. refl)) c
        (λ q. ground (arith, a.pages q, b.pages q))

-- For a region of RAM below `total_pages`: the pages from `freed_from` to the end of the region
-- become free, the other pages are as before, and the invariant is kept.
pub pmm_mark_region_free-Becomes :
    (base length : ℕ) (k : Kernel)
    → IsWellFormed k
    → base + length < 2 ^ 64
    → (base + length) / 4096 ≤ k.total_pages
    → Becomes k (pmm_mark_region_free base length k) (
        with_range
          (freed_from (base / 4096) ((base + length) / 4096))
          ((base + length) / 4096)
          false
          k)
unfolding pmm_mark_region_free
pmm_mark_region_free-Becomes base length k w fits inside =
    let e : u64 (base + length) ≡ base + length = omega arith in
    rw e (free_pages-Becomes (base / 4096) ((base + length) / 4096) (omega arith) k w inside)
