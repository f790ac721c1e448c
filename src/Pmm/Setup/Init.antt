-- ===== src/Pmm/Setup/Init.antt =====
-- What `pmm_init` sets up.
use zig_boot.Prelude.{
  ℕ, ◌+◌, ◌*◌, ◌/◌, ◌%◌, ◌≤◌, ◌<◌, ◌^◌, ◌≡◌, refl, sym, ◌∙◌, ap, ◌⊎◌, true, ◌&&◌, arith, ltb, leb,
  if◌then◌else◌, read32, IsBytes, one_bits, test_bit,
}
use zig_boot.Kernel.{Kernel}
use zig_boot.Memory.{memset-cell}
use zig_boot.Pmm.{pmm_is_page_used}
use zig_boot.Pmm.Count.{count_full}
use zig_boot.Pmm.Bitmap.{used, IsWellFormed}
use zig_boot.Pmm.Setup.{bitmap_addr, limit_memory, pmm_init}

limit_memory-le : (n : ℕ) → (limit_memory n ≤ 64 * 1024 * 1024) × (limit_memory n ≤ n)
unfolding limit_memory
limit_memory-le n = ground arith

bitmap_addr_lem :
    (info : ℕ) (k : Kernel)
    → k.kernel_end < 2 ^ 63
    → info + read32 k.mem info < 2 ^ 63
    → (bitmap_addr info k < 2 ^ 63 + 4096)
      × (bitmap_addr info k % 4096 ≡ 0)
      × (info + read32 k.mem info ≤ bitmap_addr info k)
      × (k.kernel_end ≤ bitmap_addr info k)
unfolding bitmap_addr
bitmap_addr_lem info k h l = ground arith

-- The state after `pmm_init`: well-formed, every page in use, within 64 MB, and the bitmap on a page
-- boundary past the kernel and the `size` bytes of information at `info`, outside of which no
-- memory has changed.
pub record Initialised (info size : ℕ) (k t : Kernel) : Type 0 where
  pub well_formed : IsWellFormed t
  pub all_used : (q : ℕ) → q < t.total_pages → used t q ≡ true
  pub limited : (t.total_memory ≤ 64 * 1024 * 1024) × (t.total_memory ≤ k.total_memory)
  pub pages : t.total_pages ≡ t.total_memory / 4096
  pub low : t.pmm_bitmap < 2 ^ 63 + 4096
  pub aligned : t.pmm_bitmap % 4096 ≡ 0
  pub past_info : info + size ≤ t.pmm_bitmap
  pub past_kernel : k.kernel_end ≤ t.pmm_bitmap
  pub untouched :
      (a : ℕ) → (a < t.pmm_bitmap) ⊎ (t.pmm_bitmap + t.bitmap_size ≤ a) → t.mem a ≡ k.mem a
  pub symbols : (t.kernel_start ≡ k.kernel_start) × (t.kernel_end ≡ k.kernel_end)

-- Where the kernel and the Multiboot2 information end below 2 ^ 63, `pmm_init` sets up the PMM and
-- overwrites neither.
pub pmm_init-Initialised :
    (info : ℕ) (k : Kernel)
    → IsBytes k.mem
    → k.kernel_end < 2 ^ 63
    → info + read32 k.mem info < 2 ^ 63
    → Initialised info (read32 k.mem info) k (pmm_init info k)
unfolding pmm_init
pmm_init-Initialised info k b h l = record {
  well_formed = record {
    bytes = λ a. ground (arith, b a, cell a);
    pages_fit = omega (arith, small);
    bitmap_fits = omega (arith, small);
    counted = sym (count_full t.total_pages (used t) full);
  };
  all_used = full;
  limited = small;
  pages = refl;
  low = placed.0;
  aligned = placed.1;
  past_info = placed.2;
  past_kernel = placed.3;
  untouched = λ a o. ground (arith, cell a);
  symbols = (refl, refl);
}
  where
    t : Kernel
    t = pmm_init info k

    small :
        (limit_memory k.total_memory ≤ 64 * 1024 * 1024)
        × (limit_memory k.total_memory ≤ k.total_memory)
    small = limit_memory-le k.total_memory

    placed :
        (t.pmm_bitmap < 2 ^ 63 + 4096)
        × (t.pmm_bitmap % 4096 ≡ 0)
        × (info + read32 k.mem info ≤ t.pmm_bitmap)
        × (k.kernel_end ≤ t.pmm_bitmap)
    placed = bitmap_addr_lem info _ h l

    cell :
        (a : ℕ)
        → t.mem a
          ≡ (if leb t.pmm_bitmap a && ltb a (t.pmm_bitmap + t.bitmap_size) then 255 else k.mem a)
    cell a = memset-cell t.pmm_bitmap 0xFF t.bitmap_size k.mem a

    full : (q : ℕ) → q < t.total_pages → used t q ≡ true
    full q q_in =
        let byte : t.mem (t.pmm_bitmap + q / 8) ≡ 255 =
          ground (arith, cell (t.pmm_bitmap + q / 8), small) in
        unfold pmm_is_page_used in
        (ap (λ x. test_bit x (q % 8)) byte ∙ one_bits (q % 8) (omega arith))
