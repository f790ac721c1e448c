-- ===== src/Hybrid/Services.antt =====
-- hybrid/boot/services.c: what the Zig kernel calls back.
use zig_boot.Prelude.{
  ℕ, zero, suc, ◌+◌, ◌*◌, ◌/◌, ◌%◌, ◌^◌, ◌==◌, if◌then◌else◌, List, [], ◌∷◌, none, some, get_elem?,
}
use zig_boot.Console.{text}
use zig_boot.Serial.{Serial, com1, outb, wait_ready, access}
use zig_boot.Kernel.{Kernel}
use zig_boot.Device.{wrmsr, mmio_write}
use zig_boot.Machine.{Machine, perform}
use zig_boot.Apic.{in_x2apic}
use zig_boot.Heap.{kmalloc, kfree}

-- One round of the loop of `c_write_serial`: the wait for the port, and the byte.
unfoldable pub write_byte : ℕ → Serial → Serial
write_byte c s =
    let r = wait_ready (s.busy s.sent) s in
    let w = access (outb com1 c) r in record w { sent = w.sent + 1 }

unfoldable pub c_write_serial : List ℕ → Serial → Serial
c_write_serial [] s = s
c_write_serial (c ∷ cs) s = if c == 0 then s else c_write_serial cs (write_byte c s)

-- `hex[n]` of the string literal, whose last place has the NUL.
unfoldable pub hex_at : ℕ → ℕ
hex_at n = elim (get_elem? (text "0123456789ABCDEF") n) [ some c ↦ c | none ↦ 0 ]

-- The loop over `n` nibbles, the highest first. The digit is passed by its address, as a string, and
-- `next n` are the bytes that follow it in memory when n more digits remain.
unfoldable pub hex_rounds : (ℕ → List ℕ) → ℕ → ℕ → Serial → Serial
hex_rounds next zero value s = s
hex_rounds next (suc n) value s =
    hex_rounds next n value (c_write_serial (hex_at (value / 2 ^ (4 * n) % 16) ∷ next n) s)

unfoldable pub c_write_serial_hex : (ℕ → List ℕ) → ℕ → Serial → Serial
c_write_serial_hex next value s = hex_rounds next 16 value (c_write_serial (text "0x") s)

-- The end of an interrupt; in xAPIC mode the address of the APIC is a constant.
unfoldable pub c_send_eoi : Machine → Machine
c_send_eoi m =
    if in_x2apic m then perform (wrmsr 0x80B 0) m else perform (mmio_write (0xFEE00000 + 0xB0) 0) m

pub c_kmalloc : ℕ → Kernel → Kernel × ℕ
c_kmalloc size k = kmalloc size k

pub c_kfree : ℕ → Kernel → Kernel
c_kfree ptr k = kfree ptr k
