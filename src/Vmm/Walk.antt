-- ===== src/Vmm/Walk.antt =====
-- The page tables that the processor walks, and where the recursive entry makes them appear.
use zig_boot.Prelude.{
  ℕ, ◌+◌, ◌-◌, ◌*◌, ◌/◌, ◌%◌, ◌^◌, ◌<◌, ◌≤◌, ◌≡◌, ◌⊎◌, ◌∙◌, refl, ap, arith, bit_or, bit_or_apart,
  Array, read64,
}
use zig_boot.Vmm.{
  Mmu, frame, pml4_index, pdpt_index, pd_index, pt_index, pml4_virt_addr, pdpt_virt_addr,
  pd_virt_addr, pt_virt_addr,
}

-- The entry `i` of the table at `table`.
abbrev pub entry_of : Array → ℕ → ℕ → ℕ
entry_of m table i = read64 m (table + 8 * i)

-- A present entry that points to a table and not to a large page (bit 7).
abbrev pub IsTable : ℕ → Type 0
IsTable e = (e % 2 ≡ 1) × (e / 2 ^ 7 % 2 ≡ 0)

-- The address that a walk of four levels from the table at `root` ends at.
pub record WalksTo (m : Array) (root va pa : ℕ) : Type 0 where
  pub e1 : ℕ
  pub e2 : ℕ
  pub e3 : ℕ
  pub e4 : ℕ
  pub at1 : entry_of m root (pml4_index va) ≡ e1
  pub at2 : entry_of m (frame e1) (pdpt_index va) ≡ e2
  pub at3 : entry_of m (frame e2) (pd_index va) ≡ e3
  pub at4 : entry_of m (frame e3) (pt_index va) ≡ e4
  pub tables : IsTable e1 × IsTable e2 × IsTable e3
  pub present : e4 % 2 ≡ 1
  pub ends : pa ≡ frame e4 + va % 2 ^ 12

-- An address that the processor takes: bits 47 to 63 are the same.
abbrev pub IsCanonical : ℕ → Type 0
IsCanonical va = (va < 2 ^ 47) ⊎ (2 ^ 64 - 2 ^ 47 ≤ va)

-- The processor walks the tables from `root` on, at canonical addresses, and the shifts have the values that
-- gcc gives them: `511 << 39` is 0, as nothing of it is left in an int, and `511 << 30` is the negative int of
-- its low 32 bits, with the sign extended.
pub record IsMmu (mmu : Mmu) (root : ℕ) : Type 0 where
  pub shift_39 : mmu.shl_39 ≡ 0
  pub shift_30 : mmu.shl_30 ≡ 2 ^ 64 - 2 ^ 30
  pub walks :
      (m : Array) (va pa : ℕ) → IsCanonical va → WalksTo m root va pa → mmu.translate m va ≡ pa

-- The table at `root` is a page and its last entry points to it, as `vmm_init` leaves it.
pub record IsRecursive (m : Array) (root : ℕ) : Type 0 where
  pub aligned : root % 4096 ≡ 0
  pub low : root < 2 ^ 52
  pub last : entry_of m root 511 ≡ root + 3

-- An address by its four indices and its offset.
abbrev pub address : ℕ → ℕ → ℕ → ℕ → ℕ → ℕ
address a b c d offset =
    0xFFFF * 2 ^ 48 + a * 2 ^ 39 + b * 2 ^ 30 + c * 2 ^ 21 + d * 2 ^ 12 + offset

or_apart : (k q r x : ℕ) → x ≡ q * 2 ^ k → r < 2 ^ k → bit_or x r ≡ x + r
or_apart k q r x e h = rw e (bit_or_apart k q r h)

module _ (mmu : Mmu) (root : ℕ) (hw : IsMmu mmu root) where
  high : bit_or (bit_or 0xFFFF000000000000 mmu.shl_39) mmu.shl_30 ≡ 0xFFFFFFFFC0000000
  high = rw (hw.shift_39, hw.shift_30) refl

  pub pml4_address : pml4_virt_addr mmu ≡ address 511 511 511 511 0
  unfolding pml4_virt_addr
  pml4_address = rw high refl

  pub pdpt_address : (i : ℕ) → i < 512 → pdpt_virt_addr mmu i ≡ address 511 511 511 i 0
  unfolding pdpt_virt_addr
  pdpt_address i h =
      rw high
        (or_apart 21 (0xFFFFFFFFFFE00000 / 2 ^ 21) (i * 2 ^ 12) _ refl (omega arith) ∙ omega arith)

  pub pd_address : (i j : ℕ) → i < 512 → j < 512 → pd_virt_addr mmu i j ≡ address 511 511 i j 0
  unfolding pd_virt_addr
  pd_address i j h g = rw high (
      ap (λ x. bit_or x (j * 2 ^ 12))
        (or_apart 30 (0xFFFFFFFFC0000000 / 2 ^ 30) (i * 2 ^ 21) _ refl (omega arith))
      ∙ or_apart 21 (0xFFFFFFFFC0000000 / 2 ^ 21 + i) (j * 2 ^ 12) _ (omega arith) (omega arith)
      ∙ omega arith)

  -- Nothing sets bits 39 to 47 here.
  pub pt_address :
      (i j l : ℕ) → i < 512 → j < 512 → l < 512 → pt_virt_addr mmu i j l ≡ address 0 i j l 0
  unfolding pt_virt_addr
  pt_address i j l h g f = rw hw.shift_39 (
      ap (λ x. bit_or (bit_or x (j * 2 ^ 21)) (l * 2 ^ 12))
        (or_apart 39 (0xFFFF000000000000 / 2 ^ 39) (i * 2 ^ 30) _ refl (omega arith))
      ∙ ap (λ x. bit_or x (l * 2 ^ 12))
          (or_apart 30 (0xFFFF000000000000 / 2 ^ 30 + i) (j * 2 ^ 21) _ (omega arith) (omega arith))
      ∙ or_apart 21 ((0xFFFF000000000000 / 2 ^ 30 + i) * 2 ^ 9 + j) (l * 2 ^ 12) _ (omega arith)
          (omega arith)
      ∙ omega arith)
