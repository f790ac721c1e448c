-- ===== src/Pmm/Bitmap.antt =====
-- The bitmap page by page: what the two bit operations do to every page's bit, and the invariant.
use zig_boot.Prelude.{
  ℕ, ◌+◌, ◌/◌, ◌%◌, ◌≤◌, ◌<◌, ◌^◌, ◌≡◌, ◌⊎◌, Bool, true, false, arith, ◌==◌, if◌then◌else◌, IsBytes,
  test_bit-set_bit, test_bit-clear_bit,
}
use zig_boot.Kernel.{Kernel}
use zig_boot.Pmm.{pmm_mark_page, pmm_clear_page, pmm_is_page_used}
use zig_boot.Pmm.Count.{count}

-- Which pages are in use.
abbrev pub used : Kernel → ℕ → Bool
used k p = pmm_is_page_used p k

pub used-mark :
    (p q : ℕ) (k : Kernel)
    → IsBytes k.mem
    → used (pmm_mark_page p k) q ≡ (if p == q then true else used k q)
unfolding pmm_mark_page pmm_is_page_used
used-mark p q k b = ground (
  arith,
  test_bit-set_bit (k.mem (k.pmm_bitmap + p / 8)) (p % 8) (q % 8) (b _) (omega arith) (omega arith),
)

pub used-clear :
    (p q : ℕ) (k : Kernel)
    → IsBytes k.mem
    → used (pmm_clear_page p k) q ≡ (if p == q then false else used k q)
unfolding pmm_clear_page pmm_is_page_used
used-clear p q k b = ground (
  arith,
  test_bit-clear_bit (k.mem (k.pmm_bitmap + p / 8)) (p % 8) (q % 8) (b _) (omega arith)
      (omega arith),
)

-- What every operation of the PMM keeps: memory holds bytes, the bitmap has a bit for each page,
-- and `used_pages` counts the pages in use.
pub record IsWellFormed (k : Kernel) : Type 0 where
  pub bytes : IsBytes k.mem
  pub pages_fit : k.total_pages < 2 ^ 52
  pub bitmap_fits : k.bitmap_size ≡ (k.total_pages + 7) / 8
  pub counted : k.used_pages ≡ count k.total_pages (used k)

-- `t` comes from `k` by changes to the bitmap and to `used_pages` alone.
pub record KeepsRest (k t : Kernel) : Type 0 where
  pub rest : t ≡ record k { mem = t.mem; used_pages = t.used_pages }
  pub outside :
      (a : ℕ) → (a < k.pmm_bitmap) ⊎ (k.pmm_bitmap + k.bitmap_size ≤ a) → t.mem a ≡ k.mem a

-- The result of an operation: a well-formed state in which `f` says which pages are in use.
pub record Becomes (k t : Kernel) (f : ℕ → Bool) : Type 0 where
  pub well_formed : IsWellFormed t
  pub keeps : KeepsRest k t
  pub pages : (q : ℕ) → used t q ≡ f q
