-- ===== src/Vga/Numbers.antt =====
-- c/kernel/vga.h, `vga_writestring`, `vga_write_hex` and `vga_write_dec`, which no other code calls.
use zig_boot.Prelude.{
  ℕ, zero, suc, ◌*◌, ◌/◌, ◌%◌, ◌^◌, ◌<◌, ◌≡◌, ◌∙◌, sym, ap, ap₂, inl, inr, true, Bool-cases,
  holds_below, table_entry, refl, arith, ◌==◌, if◌then◌else◌, u64, List, [], ◌∷◌,
}
use zig_boot.Console.{Console, text, dec_loop, hex_digit, hex_loop, print_hex_64}
use zig_boot.Console.Numbers.{IsDecimal, decimal, dec_loop-decimal, dec_loop-IsDecimal}
use zig_boot.Console.Text.{until_nul, plain-text, puts_lem}
use zig_boot.Console.Print.{decimal-IsPlain}
use zig_boot.Vga.{Vga, vga_putchar, vga_write}

pub vga_writestring : List ℕ → Vga → Vga
vga_writestring s = vga_write (until_nul s)

char_at : ℕ → List ℕ → ℕ
char_at i [] = 0
char_at zero (c ∷ cs) = c
char_at (suc i) (c ∷ cs) = char_at i cs

-- `hex[(value >> (i * 4)) & 0xF]` for `i` from `n - 1` down to 0
pub vga_hex_loop : ℕ → ℕ → List ℕ
unfolding char_at
vga_hex_loop zero value = []
vga_hex_loop (suc n) value =
    char_at (value / 2 ^ (4 * n) % 16) (text "0123456789ABCDEF") ∷ vga_hex_loop n value

pub vga_write_hex : ℕ → Vga → Vga
unfolding vga_writestring vga_hex_loop
vga_write_hex value = vga_writestring (0x30 ∷ 0x78 ∷ vga_hex_loop 16 value)

-- The loop `while (value > 0)` runs at most twenty times on a uint64_t.
pub vga_write_dec : ℕ → Vga → Vga
unfolding vga_writestring
vga_write_dec value v =
    if value == 0 then vga_putchar 0x30 v else vga_writestring (dec_loop 20 value []) v

digit_table : holds_below 16 (λ i. char_at i (text "0123456789ABCDEF") == hex_digit i) ≡ true
unfolding holds_below char_at text hex_digit
digit_table = refl

-- The digits are those that `print_hex_64` computes.
vga_hex_loop-hex_loop : (n value : ℕ) → vga_hex_loop n value ≡ hex_loop n value
unfolding vga_hex_loop hex_loop
vga_hex_loop-hex_loop zero value = refl
vga_hex_loop-hex_loop (suc n) value =
    let nibble = value / 2 ^ (4 * n) % 16 in
    let same : char_at nibble (text "0123456789ABCDEF") ≡ hex_digit nibble = ground (
      arith,
      table_entry (λ i. char_at i (text "0123456789ABCDEF") == hex_digit i) 16 nibble (omega arith)
          digit_table,
    ) in
    ap₂ (λ c cs. c ∷ cs) same (vga_hex_loop-hex_loop n value)

-- `vga_write_hex` writes what `print_hex_64` shows on the screen.
vga_write_hex-print_hex_64 :
    (value : ℕ) (k : Console)
    → value < 2 ^ 64
    → vga_write_hex value k.vga ≡ (print_hex_64 value k).vga
unfolding vga_write_hex vga_writestring print_hex_64
vga_write_hex-print_hex_64 value k h =
    let fits : u64 value ≡ value = omega arith in
    ap (λ s. vga_write (until_nul (0x30 ∷ 0x78 ∷ s)) k.vga)
      (vga_hex_loop-hex_loop 16 value ∙ ap (hex_loop 16) (sym fits))
    ∙ sym (puts_lem (0x30 ∷ 0x78 ∷ hex_loop 16 (u64 value)) k).1

-- `vga_write_dec` writes decimal digits that stand for the number, twenty being enough for a uint64_t.
vga_write_dec-decimal :
    (value : ℕ) (v : Vga)
    → value < 2 ^ 64
    → (digits : List ℕ) × IsDecimal digits
      × (decimal 0 digits ≡ value)
      × (vga_write_dec value v ≡ vga_write digits v)
unfolding vga_write_dec vga_writestring decimal vga_write
vga_write_dec-decimal value v h = elim (Bool-cases (value == 0)) [
  | inl z ↦ (0x30 ∷ [], omega arith, ground arith, rw z refl)
  | inr n ↦
      let digits = dec_loop 20 value [] in
      let plain = dec_loop-IsDecimal 20 value [] tt in
      (
        digits,
        plain,
        dec_loop-decimal 20 value [] (omega arith),
        rw n (ap (λ s. vga_write s v) (plain-text digits (decimal-IsPlain digits plain)).0),
      )
]
