-- ===== src/Examples/Paging.antt =====
-- The theorems on the page tables at concrete ones: the four tables for address 0 are the pages from
-- 0x1000 to 0x4000, and the processor is given by the walk itself.
use zig_boot.Prelude.{
  ℕ, ◌+◌, ◌%◌, ◌^◌, ◌≡◌, refl, sym, ap, ◌∙◌, one_bits, bit_or, ◌-◌, test_bit, arith, ◌==◌,
  if◌then◌else◌, Array, read16, read32, read64,
}
use zig_boot.Kernel.{Kernel}
use zig_boot.Vmm.{
  Mmu, frame, pml4_index, pdpt_index, pd_index, pt_index, vmm_map_page, vmm_unmap_page,
  vmm_virt_to_phys, pt_entry, load, save, is_present,
}
use zig_boot.Vmm.Walk.{entry_of, IsCanonical, WalksTo, IsMmu, IsRecursive}
use zig_boot.Vmm.Loads.{HasNoLargePage}
use zig_boot.Vmm.Astray.{IsStray, page_table-IsStray}
use zig_boot.Pmm.{pmm_is_page_used}
use zig_boot.Pmm.Count.{count}
use zig_boot.Pmm.Bitmap.{IsWellFormed}
use zig_boot.Pmm.Alloc.{IsFull}
use zig_boot.Vmm.Exhausted.{IsMissing, no_pdpt, vmm_map_page-IsMissing}
use zig_boot.Examples.{small}

abbrev last_entry : Array → ℕ → ℕ
last_entry m va =
    entry_of m
      (frame (
        entry_of m (frame (entry_of m (frame (entry_of m 0x1000 (pml4_index va))) (pdpt_index va)))
          (pd_index va)))
      (pt_index va)

abbrev mmu : Mmu
mmu = record {
  shl_39 = 0;
  shl_30 = 2 ^ 64 - 2 ^ 30;
  translate = λ m va. frame (last_entry m va) + va % 2 ^ 12;
}

-- Following the four entries of a walk.
follow : (m : Array) (va pa : ℕ) → IsCanonical va → WalksTo m 0x1000 va pa → mmu.translate m va ≡ pa
follow m va pa c w =
    let at2 = ap (λ e. entry_of m (frame e) (pdpt_index va)) w.at1 ∙ w.at2 in
    let at3 = ap (λ e. entry_of m (frame e) (pd_index va)) at2 ∙ w.at3 in
    let at4 = ap (λ e. entry_of m (frame e) (pt_index va)) at3 ∙ w.at4 in
    ap (λ e. frame e + va % 2 ^ 12) at4 ∙ sym w.ends

mmu-IsMmu : IsMmu mmu 0x1000
mmu-IsMmu = record { shift_39 = refl; shift_30 = refl; walks = follow }

-- The low bytes of the entries 0 of the four tables, and of the recursive one.
abbrev paged : Kernel
paged = record small {
  mem = λ a.
      if a == 0x1000
      then 3
      else if a == 0x1001
      then 0x20
      else if a == 0x1FF8
      then 3
      else if a == 0x1FF9
      then 0x10
      else if a == 0x2000
      then 3
      else if a == 0x2001
      then 0x30
      else if a == 0x3000
      then 3
      else if a == 0x3001
      then 0x40
      else if a == 0x4000
      then 3
      else if a == 0x4001
      then 0x50
      else 0;
}

paged-IsRecursive : IsRecursive paged.mem 0x1000
unfolding read16 read32 read64
paged-IsRecursive = record { aligned = refl; low = omega arith; last = refl }

page_table-IsStray_example :
    let at = pt_entry mmu 0x1123 in
    let e = load mmu paged at in
    IsStray at
    × (vmm_map_page mmu 0x1123 0x7000 3 paged ≡ save mmu at (bit_or (frame 0x7000) 3) paged)
    × (vmm_unmap_page mmu 0x1123 paged ≡ save mmu at 0 paged)
    × (vmm_virt_to_phys mmu 0x1123 paged ≡ (if is_present e then frame e + 0x1123 % 2 ^ 12 else 0))
unfolding read16 read32 read64
page_table-IsStray_example =
    page_table-IsStray mmu 0x1000 0x1123 0x7000 3 paged mmu-IsMmu paged-IsRecursive
      ((refl, refl), (refl, refl), (refl, refl))

-- The bitmap at 0x6000 has all sixteen pages in use, and there is no table for the address 2 ^ 39.
abbrev full : Kernel
full = record paged {
  mem = λ a. if a == 0x6000 then 255 else if a == 0x6001 then 255 else paged.mem a;
  pmm_bitmap = 0x6000;
  used_pages = 16;
}

full-IsWellFormed : IsWellFormed full
unfolding count pmm_is_page_used test_bit
full-IsWellFormed = record {
  bytes = λ a. ground arith;
  pages_fit = omega arith;
  bitmap_fits = refl;
  counted = refl;
}

full-IsFull : IsFull full
unfolding pmm_is_page_used
full-IsFull q l = ground (arith, one_bits (q % 8) (omega arith))

full-IsRecursive : IsRecursive full.mem 0x1000
unfolding read16 read32 read64
full-IsRecursive = record { aligned = refl; low = omega arith; last = refl }

full-HasNoLargePage : HasNoLargePage full.mem 0x1000 (2 ^ 39)
unfolding read16 read32 read64
full-HasNoLargePage = record {
  pml4_lem = λ p. absurd (omega (arith, p));
  pdpt_lem = λ p. absurd (omega (arith, p));
  pd_lem = λ p. absurd (omega (arith, p));
}

full-IsMissing : IsMissing full 0x1000 (2 ^ 39)
unfolding read16 read32 read64
full-IsMissing = no_pdpt refl

vmm_map_page-IsMissing_example :
    (vmm_map_page mmu (2 ^ 39) 0x7000 3 full ≡ full)
    × (vmm_virt_to_phys mmu (2 ^ 39) (vmm_map_page mmu (2 ^ 39) 0x7000 3 full) ≡ 0)
vmm_map_page-IsMissing_example =
    vmm_map_page-IsMissing mmu 0x1000 (2 ^ 39) 0x7000 3 full mmu-IsMmu full-IsRecursive
      full-HasNoLargePage full-IsWellFormed full-IsFull full-IsMissing
