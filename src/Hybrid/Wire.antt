-- ===== src/Hybrid/Wire.antt =====
-- What the services of hybrid/boot/services.c send, and tell the APIC.
use mathlib.Core.List.{append_assoc, append-nil}
use zig_boot.Prelude.{
  ℕ, zero, suc, ◌+◌, ◌*◌, ◌/◌, ◌%◌, ◌^◌, ◌≡◌, ◌<◌, ◌⊎◌, ◌↔◌, refl, ap, sym, ◌∙◌, inl, inr, true,
  false, arith, ◌==◌, Bool-cases, ==_iff, holds_below, table_entry, List, [], ◌∷◌, ◌++◌,
}
use zig_boot.Serial.{Serial, putc, putc-transmitted, transmitted}
use zig_boot.Console.{Console, text, hex_digit, hex_loop, print_hex_64}
use zig_boot.Console.Print.{print_hex_64-sent}
use zig_boot.Console.Text.{until_nul, sent}
use zig_boot.Device as Device
use zig_boot.Device.{Access, mmio_write}
use zig_boot.Machine.{Machine, perform}
use zig_boot.Apic.{in_x2apic, register_address, apic_write, send_eoi}
use zig_boot.Hybrid.Services.{
  write_byte, c_write_serial, hex_at, hex_rounds, c_write_serial_hex, c_send_eoi,
}

-- The string goes out up to its NUL, as it is.
pub c_write_serial-transmitted :
    (str : List ℕ) (s : Serial)
    → transmitted (c_write_serial str s).log ≡ transmitted s.log ++ until_nul str
unfolding c_write_serial until_nul
c_write_serial-transmitted [] s = sym (append-nil (transmitted s.log))
c_write_serial-transmitted (c ∷ cs) s = elim (Bool-cases (c == 0)) [
  | inl e ↦ rw e (sym (append-nil (transmitted s.log)))
  | inr e ↦
      let byte : transmitted (write_byte c s).log ≡ transmitted s.log ++ (c ∷ []) =
        unfold write_byte putc in putc-transmitted c s in
      rw e (
        c_write_serial-transmitted cs (write_byte c s)
        ∙ (rw byte (append_assoc (transmitted s.log) (c ∷ []) (until_nul cs))))
]

-- The letter that `hex` has for a nibble is the one that `print_hex_64` computes.
hex_at-hex_digit : (n : ℕ) → n < 16 → hex_at n ≡ hex_digit n
unfolding hex_at text hex_digit holds_below
hex_at-hex_digit n h =
    (==_iff (hex_at n) (hex_digit n)).0 (table_entry (λ i. hex_at i == hex_digit i) 16 n h table)
  where
    table : holds_below 16 (λ i. hex_at i == hex_digit i) ≡ true
    table = refl

-- The digits of `value`, each with the bytes that follow it up to a NUL.
unfoldable pub with_tails : (ℕ → List ℕ) → ℕ → ℕ → List ℕ
with_tails next zero value = []
with_tails next (suc n) value =
    hex_digit (value / 2 ^ (4 * n) % 16) ∷ until_nul (next n) ++ with_tails next n value

hex_digit_some : (n : ℕ) → (hex_digit n == 0) ≡ false
unfolding hex_digit
hex_digit_some n = ground arith

hex_rounds-transmitted :
    (next : ℕ → List ℕ) (n value : ℕ) (s : Serial)
    → transmitted (hex_rounds next n value s).log ≡ transmitted s.log ++ with_tails next n value
unfolding hex_rounds with_tails
hex_rounds-transmitted next zero value s = sym (append-nil (transmitted s.log))
hex_rounds-transmitted next (suc n) value s =
    let nibble = value / 2 ^ (4 * n) % 16 in
    let one = hex_digit nibble ∷ until_nul (next n) in
    let digit : until_nul (hex_at nibble ∷ next n) ≡ one =
      unfold until_nul in rw (hex_at-hex_digit nibble (omega arith), hex_digit_some nibble) refl in
    hex_rounds-transmitted next n value (c_write_serial (hex_at nibble ∷ next n) s)
    ∙ rw (c_write_serial-transmitted (hex_at nibble ∷ next n) s, digit)
        (append_assoc (transmitted s.log) one (with_tails next n value))

-- `c_write_serial_hex` sends "0x" and then each of the sixteen digits together with whatever follows
-- it in memory up to the next NUL.
pub c_write_serial_hex-with_tails :
    (next : ℕ → List ℕ) (value : ℕ) (s : Serial)
    → transmitted (c_write_serial_hex next value s).log
      ≡ transmitted s.log ++ 0x30 ∷ 0x78 ∷ with_tails next 16 value
unfolding c_write_serial_hex
c_write_serial_hex-with_tails next value s =
    let prefix : until_nul (text "0x") ≡ 0x30 ∷ 0x78 ∷ [] = unfold until_nul text in refl in
    hex_rounds-transmitted next 16 value (c_write_serial (text "0x") s)
    ∙ rw (c_write_serial-transmitted (text "0x") s, prefix)
        (append_assoc (transmitted s.log) (0x30 ∷ 0x78 ∷ []) (with_tails next 16 value))

with_tails-hex_loop :
    (next : ℕ → List ℕ) (n value : ℕ)
    → ((i : ℕ) → until_nul (next i) ≡ [])
    → with_tails next n value ≡ hex_loop n value
unfolding with_tails hex_loop
with_tails-hex_loop next zero value h = refl
with_tails-hex_loop next (suc n) value h = rw (h n, with_tails-hex_loop next n value h) refl

-- Where a NUL follows every digit, `c_write_serial_hex` sends what `print_hex_64` does.
pub c_write_serial_hex-print_hex_64 :
    (next : ℕ → List ℕ) (value : ℕ) (k : Console)
    → ((i : ℕ) → until_nul (next i) ≡ [])
    → value < 2 ^ 64
    → transmitted (c_write_serial_hex next value k.serial).log ≡ sent (print_hex_64 value k)
c_write_serial_hex-print_hex_64 next value k h lt =
    c_write_serial_hex-with_tails next value k.serial
    ∙ rw (with_tails-hex_loop next 16 value h) (sym (print_hex_64-sent value k lt))

-- The address that the newest access writes to.
address : List Access → ℕ
address (mmio_write a v ∷ l) = a
address _ = 0

-- `c_send_eoi` does what `send_eoi` does exactly in x2APIC mode or where the APIC is at the address
-- that is written in the code.
pub c_send_eoi-send_eoi :
    (m : Machine)
    → (c_send_eoi m ≡ send_eoi m) ↔ ((in_x2apic m ≡ true) ⊎ (m.apic_base ≡ 0xFEE00000))
unfolding c_send_eoi send_eoi apic_write Device.perform address
c_send_eoi-send_eoi m = elim (Bool-cases (in_x2apic m)) [
  | inl e ↦ rw e ((λ same. inl refl), (λ either. refl))
  | inr e ↦ rw e ((λ same. inr (omega (arith, there same))), (λ either. here either))
]
  where
    there :
        perform (mmio_write (0xFEE00000 + 0xB0) 0) m
          ≡ perform (mmio_write (register_address 0xB0 m) 0) m
        → 0xFEE000B0 ≡ m.apic_base + 0xB0
    there same = ap (λ (t : Machine). address t.device.log) same ∙ omega arith

    here :
        (false ≡ true) ⊎ (m.apic_base ≡ 0xFEE00000)
        → perform (mmio_write (0xFEE00000 + 0xB0) 0) m
          ≡ perform (mmio_write (register_address 0xB0 m) 0) m
    here (inl wrong) = absurd (ground arith)
    here (inr e) = ap (λ a. perform (mmio_write a 0) m) (omega (arith, e))
