-- ===== src/Vmm/Init.antt =====
-- The recursive entry that `vmm_init` writes.
use zig_boot.Prelude.{
  ℕ, ◌+◌, ◌*◌, ◌/◌, ◌%◌, ◌^◌, ◌≤◌, ◌<◌, ◌≡◌, ◌⊎◌, ◌∙◌, refl, arith, bit_or, bit_or_apart, u64,
  read64, write64, ◌∷◌,
}
use zig_boot.Memory.Words.{read64-write64, write64-other}
use zig_boot.Device as Device
use zig_boot.Device.{read_cr3, write_cr3}
use zig_boot.Machine.{Machine}
use zig_boot.Vmm.{Mmu, frame, pml4_virt_addr, vmm_init}

-- The value of `cr3` that the processor gives next.
abbrev pub next_cr3 : Machine → ℕ
next_cr3 m = m.device.reply (read_cr3 ∷ m.device.log)

entry_value : (x : ℕ) → u64 (bit_or (frame x) 3) ≡ frame x + 3
entry_value x = rw (bit_or_apart 12 (x / 2 ^ 12 % 2 ^ 40) 3 (omega arith)) (omega arith)

-- The kernel but for the console, and where memory is the same.
pub vmm_init-kernel :
    (mmu : Mmu) (m : Machine)
    → let p = frame (next_cr3 m) in
      let t = vmm_init mmu m in
      t.kernel ≡ record m.kernel {
        console = t.kernel.console;
        mem = write64 m.kernel.mem (p + 8 * 511) (bit_or p 3);
      }
unfolding vmm_init Device.read Device.perform
vmm_init-kernel mmu m = refl

-- `vmm_init` makes the last entry of the table that `cr3` names point to that table, present and
-- writable, changes no other memory, and loads `cr3` again with what it read.
pub vmm_init-read64 :
    (mmu : Mmu) (m : Machine)
    → let p = frame (next_cr3 m) in
      let t = vmm_init mmu m in
      (read64 t.kernel.mem (p + 8 * 511) ≡ p + 3)
      × ((a : ℕ) → (a < p + 8 * 511) ⊎ (p + 4096 ≤ a) → t.kernel.mem a ≡ m.kernel.mem a)
      × (t.device.log ≡ write_cr3 (next_cr3 m) ∷ read_cr3 ∷ m.device.log)
      × (t.pml4 ≡ pml4_virt_addr mmu)
unfolding vmm_init Device.read Device.perform
vmm_init-read64 mmu m =
    let p = frame (next_cr3 m) in
    (
      read64-write64 m.kernel.mem (p + 8 * 511) (bit_or p 3) ∙ entry_value (next_cr3 m),
      λ a out. write64-other m.kernel.mem (p + 8 * 511) (bit_or p 3) a (ground arith),
      refl,
      refl,
    )
