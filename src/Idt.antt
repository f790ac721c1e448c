-- ===== src/Idt.antt =====
-- c/kernel/minimal_step9.c, the interrupt descriptor table: its gates and `idt_init`.
pub mod Gates
mod Examples
use zig_boot.Prelude.{ℕ, ◌+◌, ◌*◌, ◌/◌, ◌%◌, ◌^◌, ◌-◌, ◌==◌, if◌then◌else◌, for_range}

-- `struct idt_entry`
pub record IdtEntry : Type 0 where
  pub offset_low : ℕ
  pub selector : ℕ
  pub ist : ℕ
  pub type_attr : ℕ
  pub offset_mid : ℕ
  pub offset_high : ℕ
  pub zero_field : ℕ

-- `idt`, `idtr` and what `lidt` has loaded.
pub record Idt : Type 0 where
  pub idt : ℕ → IdtEntry
  pub limit : ℕ
  pub base : ℕ
  pub loaded : ℕ × ℕ

-- The addresses that the linker gives.
pub record Handlers : Type 0 where
  pub pure_iretq_handler : ℕ
  pub exception_stubs : ℕ → ℕ
  pub timer_irq_stub : ℕ
  pub idt_address : ℕ

abbrev pub timer_vector : ℕ
timer_vector = 32

-- The fields that `idt_set_gate` writes; `& 0xFFFF` and `& 0xFFFFFFFF` are the remainders.
abbrev pub gate : ℕ → ℕ → ℕ → IdtEntry
gate handler selector flags = record {
  offset_low = handler % 2 ^ 16;
  selector = selector;
  ist = 0;
  type_attr = flags;
  offset_mid = handler / 2 ^ 16 % 2 ^ 16;
  offset_high = handler / 2 ^ 32 % 2 ^ 32;
  zero_field = 0;
}

pub idt_set_gate : ℕ → ℕ → ℕ → ℕ → Idt → Idt
idt_set_gate num handler selector flags t = record t {
  idt = λ i. if i == num then gate handler selector flags else t.idt i;
}

pub idt_load : Idt → Idt
idt_load t = record t { loaded = (t.limit, t.base) }

pub idt_init : Handlers → Idt → Idt
unfolding idt_load
idt_init h t0 =
    let t1 = for_range 256 0 (λ i t. idt_set_gate i h.pure_iretq_handler 0x08 0x8E t) t0 in
    let t2 = for_range 32 0 (λ i t. idt_set_gate i (h.exception_stubs i) 0x08 0x8E t) t1 in
    let t3 = idt_set_gate timer_vector h.timer_irq_stub 0x08 0x8E t2 in
    idt_load (record t3 { limit = 256 * 16 - 1; base = h.idt_address })
