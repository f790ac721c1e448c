-- ===== src/Device.antt =====
-- The processor's devices as c/kernel/minimal_step9.c reaches them: model specific registers, the
-- mapped registers of the local APIC, ports, `cpuid`, `cr3`, and the instructions that only wait or
-- switch interrupts. The hardware answers each read by some function of what was done before.
use zig_boot.Prelude.{ℕ, List, ◌∷◌}

pub data Access : Type 0 where
  rdmsr : ℕ → Access
  wrmsr : ℕ → ℕ → Access
  mmio_read : ℕ → Access
  mmio_write : ℕ → ℕ → Access
  outb : ℕ → ℕ → Access
  cpuid : ℕ → ℕ → Access  -- the leaf, and which of the registers eax, ebx, ecx, edx is read
  read_cr3 : Access
  write_cr3 : ℕ → Access
  pauses : ℕ → Access  -- so many rounds of a loop over `pause`
  wbinvd : Access
  sti : Access

-- What was done, the newest first, and the value that the newest access gets if it is a read.
pub record Device : Type 0 where
  pub reply : List Access → ℕ
  pub log : List Access

unfoldable pub perform : Access → Device → Device
perform a d = record d { log = a ∷ d.log }

unfoldable pub read : Access → Device → Device × ℕ
read a d = (record d { log = a ∷ d.log }, d.reply (a ∷ d.log))
