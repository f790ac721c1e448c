-- ===== src/Vmm/Exhausted.antt =====
-- When memory is out, a page whose tables are not all there is not mapped, and nothing changes.
use zig_boot.Prelude.{ℕ, ◌%◌, ◌≡◌, ◌∙◌, refl, ap, inl, inr, true, false, arith}
use zig_boot.Kernel.{Kernel}
use zig_boot.Pmm.{pmm_alloc_page}
use zig_boot.Pmm.Bitmap.{IsWellFormed}
use zig_boot.Pmm.Alloc.{IsFull, pmm_alloc_page_lem}
use zig_boot.Vmm.{
  Mmu, pml4_index, pdpt_index, pd_index, pml4_entry, pdpt_entry, pd_entry, load, is_present,
  pdpt_virt_addr, pd_virt_addr, pt_virt_addr, ensure_table, vmm_map_page, vmm_virt_to_phys,
}
use zig_boot.Vmm.Walk.{IsMmu, IsRecursive}
use zig_boot.Vmm.Loads.{first, second, third, HasNoLargePage, load-first, load-second, load-third}

-- The entry of the table before is there, and that of the next one is not.
pub data IsMissing (k : Kernel) (root v : ℕ) : Type 0 where
  no_pdpt : first k.mem root v % 2 ≡ 0 → IsMissing k root v
  no_pd : first k.mem root v % 2 ≡ 1 → second k.mem root v % 2 ≡ 0 → IsMissing k root v
  no_pt :
      first k.mem root v % 2 ≡ 1
      → second k.mem root v % 2 ≡ 1
      → third k.mem root v % 2 ≡ 0
      → IsMissing k root v

full_alloc : (k : Kernel) → IsWellFormed k → IsFull k → pmm_alloc_page k ≡ (k, 0)
full_alloc k w full = elim (pmm_alloc_page_lem k w) [
  | inl a ↦ absurd (ground (arith, a.was_free, full a.page a.in_range))
  | inr (e, f) ↦ e
]

pub ensure_present :
    (mmu : Mmu) (at table : ℕ) (k : Kernel)
    → load mmu k at % 2 ≡ 1
    → ensure_table mmu at table k ≡ (k, true)
unfolding ensure_table
ensure_present mmu at table k h =
    let there : is_present (load mmu k at) ≡ true = ground arith in rw there refl

ensure_missing :
    (mmu : Mmu) (at table : ℕ) (k : Kernel)
    → pmm_alloc_page k ≡ (k, 0)
    → load mmu k at % 2 ≡ 0
    → ensure_table mmu at table k ≡ (k, false)
unfolding ensure_table
ensure_missing mmu at table k e h =
    let missing : is_present (load mmu k at) ≡ false = ground arith in rw (missing, e) refl

map_missing :
    (mmu : Mmu) (root v phys flags : ℕ) (k : Kernel)
    → IsMmu mmu root
    → IsRecursive k.mem root
    → HasNoLargePage k.mem root v
    → pmm_alloc_page k ≡ (k, 0)
    → IsMissing k root v
    → vmm_map_page mmu v phys flags k ≡ k
unfolding vmm_map_page
map_missing mmu root v phys flags k hw rec small out (no_pdpt h1) =
    let l1 = load-first mmu root v k hw rec in
    rw
      (ensure_missing mmu (pml4_entry mmu v) (pdpt_virt_addr mmu (pml4_index v)) k out
        (ap (λ x. x % 2) l1 ∙ h1))
      refl
map_missing mmu root v phys flags k hw rec small out (no_pd h1 h2) =
    let i1 = pml4_index v in
    let l1 = load-first mmu root v k hw rec in
    let l2 = load-second mmu root v k hw rec h1 in
    let s1 =
      ensure_present mmu (pml4_entry mmu v) (pdpt_virt_addr mmu i1) k (ap (λ x. x % 2) l1 ∙ h1) in
    let s2 =
      ensure_missing mmu (pdpt_entry mmu v) (pd_virt_addr mmu i1 (pdpt_index v)) k out
        (ap (λ x. x % 2) l2 ∙ h2) in
    rw (s1, s2) refl
map_missing mmu root v phys flags k hw rec small out (no_pt h1 h2 h3) =
    let i1 = pml4_index v in
    let i2 = pdpt_index v in
    let l1 = load-first mmu root v k hw rec in
    let l2 = load-second mmu root v k hw rec h1 in
    let l3 = load-third mmu root v k hw rec (small.pml4_lem h1) h2 in
    let s1 =
      ensure_present mmu (pml4_entry mmu v) (pdpt_virt_addr mmu i1) k (ap (λ x. x % 2) l1 ∙ h1) in
    let s2 =
      ensure_present mmu (pdpt_entry mmu v) (pd_virt_addr mmu i1 i2) k (ap (λ x. x % 2) l2 ∙ h2) in
    let s3 =
      ensure_missing mmu (pd_entry mmu v) (pt_virt_addr mmu i1 i2 (pd_index v)) k out
        (ap (λ x. x % 2) l3 ∙ h3) in
    rw (s1, s2, s3) refl

missing_translation :
    (mmu : Mmu) (root v : ℕ) (k : Kernel)
    → IsMmu mmu root
    → IsRecursive k.mem root
    → HasNoLargePage k.mem root v
    → IsMissing k root v
    → vmm_virt_to_phys mmu v k ≡ 0
unfolding vmm_virt_to_phys
missing_translation mmu root v k hw rec small (no_pdpt h1) =
    let l1 = load-first mmu root v k hw rec in
    let p1 : is_present (first k.mem root v) ≡ false = ground arith in rw (l1, p1) refl
missing_translation mmu root v k hw rec small (no_pd h1 h2) =
    let l1 = load-first mmu root v k hw rec in
    let l2 = load-second mmu root v k hw rec h1 in
    let p1 : is_present (first k.mem root v) ≡ true = ground arith in
    let p2 : is_present (second k.mem root v) ≡ false = ground arith in rw (l1, p1, l2, p2) refl
missing_translation mmu root v k hw rec small (no_pt h1 h2 h3) =
    let l1 = load-first mmu root v k hw rec in
    let l2 = load-second mmu root v k hw rec h1 in
    let l3 = load-third mmu root v k hw rec (small.pml4_lem h1) h2 in
    let p1 : is_present (first k.mem root v) ≡ true = ground arith in
    let p2 : is_present (second k.mem root v) ≡ true = ground arith in
    let p3 : is_present (third k.mem root v) ≡ false = ground arith in
    rw (l1, p1, l2, p2, l3, p3) refl

-- With the values that gcc gives to the shifts and the recursive entry in place, when every page is in use
-- and one of the three tables for an address, in no large page, is missing, `vmm_map_page` changes
-- nothing, and `vmm_virt_to_phys` still gives 0.
pub vmm_map_page-IsMissing :
    (mmu : Mmu) (root v phys flags : ℕ) (k : Kernel)
    → IsMmu mmu root
    → IsRecursive k.mem root
    → HasNoLargePage k.mem root v
    → IsWellFormed k
    → IsFull k
    → IsMissing k root v
    → (vmm_map_page mmu v phys flags k ≡ k)
      × (vmm_virt_to_phys mmu v (vmm_map_page mmu v phys flags k) ≡ 0)
vmm_map_page-IsMissing mmu root v phys flags k hw rec small w full missing =
    let same = map_missing mmu root v phys flags k hw rec small (full_alloc k w full) missing in
    (same, ap (vmm_virt_to_phys mmu v) same ∙ missing_translation mmu root v k hw rec small missing)
