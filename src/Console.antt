-- ===== src/Console.antt =====
-- c/kernel/minimal_step9.c, the printing functions: `puts` writes to the serial port and to the
-- screen, and the numbers are laid out in a buffer first. A buffer is the list of its characters
-- from the first one used up to the NUL.
pub mod Text
pub mod Numbers
pub mod Print
pub mod Extends
use Prim.Native.Char.{code}
use Prim.Native.String.{String}
use zig_boot.Prelude.{
  ℕ, zero, suc, ◌+◌, ◌-◌, ◌*◌, ◌/◌, ◌%◌, ◌^◌, List, [], ◌∷◌, ◌==◌, ltb, if◌then◌else◌, u32, u64,
}
use zig_boot.Serial
use zig_boot.Serial.{Serial}
use zig_boot.Vga.{Vga, vga_putchar}

pub record Console : Type 0 where
  pub serial : Serial
  pub vga : Vga

-- The bytes of a string literal.
unfoldable pub text : String → List ℕ
text String.[] = []
text (String.◌∷◌ c s) = code c ∷ text s

-- `putc` alone writes to the serial port and not to the screen.
pub putc : ℕ → Console → Console
putc c k = record k { serial = Serial.putc c k.serial }

-- One round of the loop of `puts`.
pub put_one : ℕ → Console → Console
unfolding putc
put_one c k =
    let r = if c == 0x0A then putc 0x0D k else k in
    let s = putc c r in record s { vga = vga_putchar c s.vga }

pub puts : List ℕ → Console → Console
unfolding put_one
puts [] k = k
puts (c ∷ cs) k = if c == 0 then k else puts cs (put_one c k)

-- `while (num > 0 && i >= 0) { buf[i--] = '0' + (num % 10); num /= 10; }` with i + 1 free places
pub dec_loop : ℕ → ℕ → List ℕ → List ℕ
dec_loop zero num buf = buf
dec_loop (suc i) num buf =
    let rest = dec_loop i (num / 10) ((0x30 + num % 10) ∷ buf) in if num == 0 then buf else rest

pub print_dec : ℕ → Console → Console
unfolding putc
print_dec num k = if u32 num == 0 then putc 0x30 k else puts (dec_loop 11 (u32 num) []) k

pub print_dec_64 : ℕ → Console → Console
unfolding putc
print_dec_64 num k = if u64 num == 0 then putc 0x30 k else puts (dec_loop 23 (u64 num) []) k

-- `(nibble < 10) ? ('0' + nibble) : ('A' + nibble - 10)`
unfoldable pub hex_digit : ℕ → ℕ
hex_digit nibble = if ltb nibble 10 then 0x30 + nibble else 0x41 + nibble - 10

-- The loop over `n` nibbles, the highest first: `(num >> (4 * (n - 1 - i))) & 0xF`.
unfoldable pub hex_loop : ℕ → ℕ → List ℕ
hex_loop zero num = []
hex_loop (suc n) num = hex_digit (num / 2 ^ (4 * n) % 16) ∷ hex_loop n num

pub print_hex : ℕ → Console → Console
print_hex num = puts (0x30 ∷ 0x78 ∷ hex_loop 8 (u32 num))

unfoldable pub print_hex_64 : ℕ → Console → Console
print_hex_64 num = puts (0x30 ∷ 0x78 ∷ hex_loop 16 (u64 num))
