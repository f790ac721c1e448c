-- ===== src/Vmm/Astray.antt =====
-- Where the tables for an address are all there, the functions reach past the page table: what gcc makes of
-- `RECURSIVE_INDEX << 39` leaves its address without the bits that would make it canonical.
use zig_boot.Prelude.{
  ℕ, ◌+◌, ◌-◌, ◌%◌, ◌^◌, ◌<◌, ◌≤◌, ◌≡◌, ◌∙◌, refl, ap, true, arith, bit_or, if◌then◌else◌,
}
use zig_boot.Kernel.{Kernel}
use zig_boot.Vmm.{
  Mmu, frame, pml4_index, pdpt_index, pd_index, pml4_entry, pdpt_entry, pd_entry, pt_entry, load,
  save, is_present, pdpt_virt_addr, pd_virt_addr, pt_virt_addr, vmm_map_page, vmm_unmap_page,
  vmm_virt_to_phys,
}
use zig_boot.Vmm.Walk.{IsTable, IsMmu, IsRecursive, pt_address}
use zig_boot.Vmm.Loads.{first, second, third, load-first, load-second, load-third}
use zig_boot.Vmm.Exhausted.{ensure_present}

-- The three tables for `v` are there.
abbrev pub HasTables : Kernel → ℕ → ℕ → Type 0
HasTables k root v =
    IsTable (first k.mem root v) × IsTable (second k.mem root v) × IsTable (third k.mem root v)

-- Bits 47 to 63 of the address are not the same: the access is a general protection fault.
abbrev pub IsStray : ℕ → Type 0
IsStray va = (2 ^ 47 ≤ va) × (va < 2 ^ 64 - 2 ^ 47)

pt_entry-IsStray : (mmu : Mmu) (root v : ℕ) → IsMmu mmu root → IsStray (pt_entry mmu v)
pt_entry-IsStray mmu root v hw =
    let e =
      pt_address mmu root hw (pml4_index v) (pdpt_index v) (pd_index v) (omega arith) (omega arith)
        (omega arith) in
    (omega (arith, e), omega (arith, e))

module _ (mmu : Mmu) (root v : ℕ) (k : Kernel) (hw : IsMmu mmu root) (rec : IsRecursive k.mem root)
    (h : HasTables k root v) where
  map_strays :
      (phys flags : ℕ)
      → vmm_map_page mmu v phys flags k ≡ save mmu (pt_entry mmu v) (bit_or (frame phys) flags) k
  unfolding vmm_map_page
  map_strays phys flags =
      let (t1, t2, t3) = h in
      let i1 = pml4_index v in
      let i2 = pdpt_index v in
      let l1 = load-first mmu root v k hw rec in
      let l2 = load-second mmu root v k hw rec t1.0 in
      let l3 = load-third mmu root v k hw rec t1 t2.0 in
      let s1 =
        ensure_present mmu (pml4_entry mmu v) (pdpt_virt_addr mmu i1) k
          (ap (λ x. x % 2) l1 ∙ t1.0) in
      let s2 =
        ensure_present mmu (pdpt_entry mmu v) (pd_virt_addr mmu i1 i2) k
          (ap (λ x. x % 2) l2 ∙ t2.0) in
      let s3 =
        ensure_present mmu (pd_entry mmu v) (pt_virt_addr mmu i1 i2 (pd_index v)) k
          (ap (λ x. x % 2) l3 ∙ t3.0) in
      rw (s1, s2, s3) refl

  unmap_strays : vmm_unmap_page mmu v k ≡ save mmu (pt_entry mmu v) 0 k
  unfolding vmm_unmap_page
  unmap_strays =
      let (t1, t2, t3) = h in
      let l1 = load-first mmu root v k hw rec in
      let l2 = load-second mmu root v k hw rec t1.0 in
      let l3 = load-third mmu root v k hw rec t1 t2.0 in
      let p1 : is_present (first k.mem root v) ≡ true = ground arith in
      let p2 : is_present (second k.mem root v) ≡ true = ground arith in
      let p3 : is_present (third k.mem root v) ≡ true = ground arith in
      rw (l1, p1, l2, p2, l3, p3) refl

  translation_strays :
      let e = load mmu k (pt_entry mmu v) in
      vmm_virt_to_phys mmu v k ≡ (if is_present e then frame e + v % 2 ^ 12 else 0)
  unfolding vmm_virt_to_phys
  translation_strays =
      let (t1, t2, t3) = h in
      let l1 = load-first mmu root v k hw rec in
      let l2 = load-second mmu root v k hw rec t1.0 in
      let l3 = load-third mmu root v k hw rec t1 t2.0 in
      let p1 : is_present (first k.mem root v) ≡ true = ground arith in
      let p2 : is_present (second k.mem root v) ≡ true = ground arith in
      let p3 : is_present (third k.mem root v) ≡ true = ground arith in
      rw (l1, p1, l2, p2, l3, p3) refl

-- With the values that gcc gives to the shifts and the recursive entry in place, where the three tables for
-- an address are there and it is in no large page: `vmm_map_page` only stores the new entry,
-- `vmm_unmap_page` only stores 0, and `vmm_virt_to_phys` answers by what it loads, all three at one
-- address, and that address is not canonical, whatever the address that is asked for.
pub page_table-IsStray :
    (mmu : Mmu) (root v phys flags : ℕ) (k : Kernel)
    → IsMmu mmu root
    → IsRecursive k.mem root
    → HasTables k root v
    → let at = pt_entry mmu v in
      let e = load mmu k at in
      IsStray at
      × (vmm_map_page mmu v phys flags k ≡ save mmu at (bit_or (frame phys) flags) k)
      × (vmm_unmap_page mmu v k ≡ save mmu at 0 k)
      × (vmm_virt_to_phys mmu v k ≡ (if is_present e then frame e + v % 2 ^ 12 else 0))
page_table-IsStray mmu root v phys flags k hw rec h = (
  pt_entry-IsStray mmu root v hw,
  map_strays mmu root v k hw rec h phys flags,
  unmap_strays mmu root v k hw rec h,
  translation_strays mmu root v k hw rec h,
)
