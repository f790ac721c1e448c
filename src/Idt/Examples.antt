-- ===== src/Idt/Examples.antt =====
-- The theorem on the gates at concrete handlers.
use zig_boot.Prelude.{ℕ, ◌<◌, ◌≡◌, arith}
use zig_boot.Idt.{Idt, Handlers, gate, idt_init}
use zig_boot.Idt.Gates.{LeadsTo, handler_of, idt_init-LeadsTo}

abbrev handlers : Handlers
handlers = record {
  pure_iretq_handler = 0x101000;
  exception_stubs = λ i. 0x102000;
  timer_irq_stub = 0x103000;
  idt_address = 0x110000;
}

abbrev table : Idt
table = record { idt = λ i. gate 0 0 0; limit = 0; base = 0; loaded = (0, 0) }

idt_init-LeadsTo_example :
    ((i : ℕ) → i < 256 → LeadsTo ((idt_init handlers table).idt i) (handler_of handlers i))
    × ((idt_init handlers table).loaded ≡ (4095, 0x110000))
idt_init-LeadsTo_example =
    idt_init-LeadsTo handlers table
      (record { iretq = omega arith; stubs = λ i l. omega arith; timer = omega arith })
