-- ===== src/Vmm/Loads.antt =====
-- What the loads of the functions on page tables find at the recursive addresses.
use zig_boot.Prelude.{
  ℕ, ◌+◌, ◌*◌, ◌%◌, ◌^◌, ◌<◌, ◌≤◌, ◌≡◌, inr, ◌∙◌, refl, sym, ap, arith, Array, read64,
}
use zig_boot.Kernel.{Kernel}
use zig_boot.Vmm.{
  Mmu, frame, pml4_index, pdpt_index, pd_index, pt_index, pml4_entry, pdpt_entry, pd_entry, load,
  pml4_virt_addr, pdpt_virt_addr, pd_virt_addr,
}
use zig_boot.Vmm.Walk.{
  entry_of, IsTable, IsMmu, IsRecursive, address, pml4_address, pdpt_address, pd_address,
}

indices :
    (a b c d o va : ℕ)
    → va ≡ address a b c d o
    → a < 512
    → b < 512
    → c < 512
    → d < 512
    → o < 4096
    → (pml4_index va ≡ a)
      × (pdpt_index va ≡ b)
      × (pd_index va ≡ c)
      × (pt_index va ≡ d)
      × (va % 2 ^ 12 ≡ o)
indices a b c d o va e ha hb hc hd ho =
    (omega arith, omega arith, omega arith, omega arith, omega arith)

-- The last entry is a table, and points to the table it stands in.
self : (root : ℕ) → root % 4096 ≡ 0 → root < 2 ^ 52 → (frame (root + 3) ≡ root) × IsTable (root + 3)
self root al low = (omega arith, (omega arith, omega arith))

module _ (mmu : Mmu) (root : ℕ) (hw : IsMmu mmu root) (m : Array) where
  reach :
      (a b c d o va e1 e2 e3 e4 : ℕ)
      → va ≡ address a b c d o
      → 256 ≤ a
      → (a < 512) × (b < 512) × (c < 512) × (d < 512) × (o < 4096)
      → (entry_of m root a ≡ e1)
        × (entry_of m (frame e1) b ≡ e2)
        × (entry_of m (frame e2) c ≡ e3)
        × (entry_of m (frame e3) d ≡ e4)
      → IsTable e1 × IsTable e2 × IsTable e3
      → e4 % 2 ≡ 1
      → mmu.translate m va ≡ frame e4 + o
  reach a b c d o va e1 e2 e3 e4 e upper (ha, hb, hc, hd, ho) (at1, at2, at3, at4) tables present =
      let (i1, i2, i3, i4, i5) = indices a b c d o va e ha hb hc hd ho in
      hw.walks m va (frame e4 + o) (inr (omega (arith, e, upper))) (record {
        e1 = e1;
        e2 = e2;
        e3 = e3;
        e4 = e4;
        at1 = ap (entry_of m root) i1 ∙ at1;
        at2 = ap (entry_of m (frame e1)) i2 ∙ at2;
        at3 = ap (entry_of m (frame e2)) i3 ∙ at3;
        at4 = ap (entry_of m (frame e3)) i4 ∙ at4;
        tables = tables;
        present = present;
        ends = ap (λ x. frame e4 + x) (sym i5);
      })

  module _ (rec : IsRecursive m root) where
    again : entry_of m (frame (root + 3)) 511 ≡ root + 3
    again = ap (λ t. entry_of m t 511) (self root rec.aligned rec.low).0 ∙ rec.last

    pub at_pml4 : (i : ℕ) → i < 512 → mmu.translate m (pml4_virt_addr mmu + 8 * i) ≡ root + 8 * i
    at_pml4 i h =
        let (back, table) = self root rec.aligned rec.low in
        reach 511 511 511 511 (8 * i) (pml4_virt_addr mmu + 8 * i) (root + 3) (root + 3) (root + 3)
          (root + 3) (ap (λ x. x + 8 * i) (pml4_address mmu root hw) ∙ omega arith) (omega arith)
          (omega arith) (rec.last, again, again, again) (table, table, table)
          (omega (arith, rec.aligned))
        ∙ ap (λ x. x + 8 * i) back

    pub at_pdpt :
        (i j e1 : ℕ)
        → (i < 512) × (j < 512)
        → entry_of m root i ≡ e1
        → e1 % 2 ≡ 1
        → mmu.translate m (pdpt_virt_addr mmu i + 8 * j) ≡ frame e1 + 8 * j
    at_pdpt i j e1 (hi, hj) at1 p1 =
        let (back, table) = self root rec.aligned rec.low in
        reach 511 511 511 i (8 * j) (pdpt_virt_addr mmu i + 8 * j) (root + 3) (root + 3) (root + 3)
          e1 (ap (λ x. x + 8 * j) (pdpt_address mmu root hw i hi) ∙ omega arith) (omega arith)
          (omega arith) (rec.last, again, again, ap (λ t. entry_of m t i) back ∙ at1)
          (table, table, table) p1

    pub at_pd :
        (i j l e1 e2 : ℕ)
        → (i < 512) × (j < 512) × (l < 512)
        → (entry_of m root i ≡ e1) × (entry_of m (frame e1) j ≡ e2)
        → IsTable e1
        → e2 % 2 ≡ 1
        → mmu.translate m (pd_virt_addr mmu i j + 8 * l) ≡ frame e2 + 8 * l
    at_pd i j l e1 e2 (hi, hj, hl) (at1, at2) t1 p2 =
        let (back, table) = self root rec.aligned rec.low in
        reach 511 511 i j (8 * l) (pd_virt_addr mmu i j + 8 * l) (root + 3) (root + 3) e1 e2
          (ap (λ x. x + 8 * l) (pd_address mmu root hw i j hi hj) ∙ omega arith) (omega arith)
          (omega arith) (rec.last, again, ap (λ t. entry_of m t i) back ∙ at1, at2)
          (table, table, t1) p2

-- The entries for `v` in the first three tables.
abbrev pub first : Array → ℕ → ℕ → ℕ
first m root v = entry_of m root (pml4_index v)

abbrev pub second : Array → ℕ → ℕ → ℕ
second m root v = entry_of m (frame (first m root v)) (pdpt_index v)

abbrev pub third : Array → ℕ → ℕ → ℕ
third m root v = entry_of m (frame (second m root v)) (pd_index v)

-- Those that are present are not entries of large pages.
pub record HasNoLargePage (m : Array) (root v : ℕ) : Type 0 where
  pub pml4_lem : first m root v % 2 ≡ 1 → IsTable (first m root v)
  pub pdpt_lem : second m root v % 2 ≡ 1 → IsTable (second m root v)
  pub pd_lem : third m root v % 2 ≡ 1 → IsTable (third m root v)

-- What the functions load for `v`, as far as the entries before are there.
module _ (mmu : Mmu) (root v : ℕ) (k : Kernel) (hw : IsMmu mmu root)
    (rec : IsRecursive k.mem root) where
  pub load-first : load mmu k (pml4_entry mmu v) ≡ first k.mem root v
  load-first = ap (read64 k.mem) (at_pml4 mmu root hw k.mem rec (pml4_index v) (omega arith))

  pub load-second : first k.mem root v % 2 ≡ 1 → load mmu k (pdpt_entry mmu v) ≡ second k.mem root v
  load-second p1 =
      ap (read64 k.mem)
        (at_pdpt mmu root hw k.mem rec (pml4_index v) (pdpt_index v) _ (omega arith) refl p1)

  pub load-third :
      IsTable (first k.mem root v)
      → second k.mem root v % 2 ≡ 1
      → load mmu k (pd_entry mmu v) ≡ third k.mem root v
  load-third t1 p2 = ap (read64 k.mem) (
      at_pd mmu root hw k.mem rec (pml4_index v) (pdpt_index v) (pd_index v) _ _ (omega arith)
        (refl, refl) t1 p2)
