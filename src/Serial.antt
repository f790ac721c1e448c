-- ===== src/Serial.antt =====
-- c/kernel/minimal_step9.c, serial port: `serial_init` and `putc`, as accesses to the ports of COM1.
use mathlib.Core.List.{append-nil}
use zig_boot.Prelude.{
  ℕ, zero, suc, ◌+◌, ◌≡◌, refl, ◌∙◌, arith, List, [], ◌∷◌, ◌++◌, ◌==◌, if◌then◌else◌,
}

abbrev pub com1 : ℕ
com1 = 0x3F8

-- `inb port` and `outb port value`
pub data PortAccess : Type 0 where
  inb : ℕ → PortAccess
  outb : ℕ → ℕ → PortAccess

-- The port and its device: `busy n` is how often the line status register is read with bit 5 clear
-- before the n-th byte is taken; `sent` counts the bytes, and `log` is what was done, oldest first.
pub record Serial : Type 0 where
  pub busy : ℕ → ℕ
  pub sent : ℕ
  pub log : List PortAccess

unfoldable pub access : PortAccess → Serial → Serial
access a s = record s { log = s.log ++ (a ∷ []) }

pub serial_init : Serial → Serial
unfolding access
serial_init s = access (outb (com1 + 4) 0x0B) (
    access (outb (com1 + 2) 0xC7) (
      access (outb (com1 + 3) 0x03) (
        access (outb (com1 + 1) 0x00) (
          access (outb (com1 + 0) 0x03)
            (access (outb (com1 + 3) 0x80) (access (outb (com1 + 1) 0x00) s))))))

-- `while ((inb(COM1 + 5) & 0x20) == 0);` with the number of reads that still find the bit clear
pub wait_ready : ℕ → Serial → Serial
wait_ready zero s = access (inb (com1 + 5)) s
wait_ready (suc n) s = wait_ready n (access (inb (com1 + 5)) s)

unfoldable pub putc : ℕ → Serial → Serial
unfolding wait_ready access
putc c s =
    let r = wait_ready (s.busy s.sent) s in
    let w = access (outb com1 c) r in record w { sent = w.sent + 1 }

-- The bytes that were sent: what was written to the data port.
unfoldable pub transmitted : List PortAccess → List ℕ
transmitted [] = []
transmitted (inb p ∷ l) = transmitted l
transmitted (outb p v ∷ l) = if p == com1 then v ∷ transmitted l else transmitted l

transmitted-append : (l m : List PortAccess) → transmitted (l ++ m) ≡ transmitted l ++ transmitted m
unfolding transmitted
transmitted-append [] m = refl
transmitted-append (inb p ∷ l) m = transmitted-append l m
transmitted-append (outb p v ∷ l) m = ground (arith, transmitted-append l m)

wait_ready-transmitted : (n : ℕ) (s : Serial) → transmitted (wait_ready n s).log ≡ transmitted s.log
unfolding wait_ready access
wait_ready-transmitted zero s =
    transmitted-append s.log _ ∙ (unfold transmitted in append-nil (transmitted s.log))
wait_ready-transmitted (suc n) s =
    wait_ready-transmitted n (access (inb (com1 + 5)) s)
    ∙ transmitted-append s.log _
    ∙ (unfold transmitted in append-nil (transmitted s.log))

-- A byte is sent once, after the wait.
pub putc-transmitted :
    (c : ℕ) (s : Serial) → transmitted (putc c s).log ≡ transmitted s.log ++ (c ∷ [])
unfolding putc access
putc-transmitted c s =
    let r = wait_ready (s.busy s.sent) s in
    transmitted-append r.log _
    ∙ (rw (wait_ready-transmitted (s.busy s.sent) s) (unfold transmitted in refl))
