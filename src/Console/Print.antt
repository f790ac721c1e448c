-- ===== src/Console/Print.antt =====
-- The numbers that `print_dec`, `print_dec_64`, `print_hex` and `print_hex_64` print.
use zig_boot.Prelude.{
  ℕ, zero, suc, ◌+◌, ◌/◌, ◌%◌, ◌^◌, ◌<◌, ◌≡◌, refl, ◌≢◌, inl, inr, ap, List, [], ◌∷◌, ◌++◌, arith,
  ◌==◌, if◌then◌else◌, Bool-cases, u32, u64, length, false,
}
use native.Mathlib.Nat.{pow-suc}
use zig_boot.Serial.{putc-transmitted}
use zig_boot.Vga.{vga_write}
use zig_boot.Console.{
  Console, putc, puts, dec_loop, print_dec, print_dec_64, hex_digit, hex_loop, print_hex,
  print_hex_64,
}
use zig_boot.Console.Numbers.{
  IsDecimal, HasNoLeadingZero, decimal, hexadecimal, dec_loop-decimal, dec_loop-IsDecimal,
  hex_loop-hexadecimal,
}
use zig_boot.Console.Text.{sent, IsPlain, puts_plain}

pub decimal-IsPlain : (s : List ℕ) → IsDecimal s → IsPlain s
decimal-IsPlain [] h = tt
decimal-IsPlain (c ∷ cs) (lo, hi, h) = (omega arith, omega arith, decimal-IsPlain cs h)

ne_zero : (num : ℕ) → num ≢ 0 → (num == 0) ≡ false
ne_zero num n = ground arith

dec_loop_zero : (i num : ℕ) (buf : List ℕ) → num ≡ 0 → dec_loop i num buf ≡ buf
unfolding dec_loop
dec_loop_zero zero num buf e = refl
dec_loop_zero (suc i) num buf e = ground arith

dec_loop_first :
    (i num : ℕ) (buf : List ℕ) → num < 10 ^ i → num ≢ 0 → HasNoLeadingZero (dec_loop i num buf)
unfolding dec_loop
dec_loop_first zero num buf h n = absurd (n (omega arith))
dec_loop_first (suc i) num buf h n = elim (Bool-cases (num / 10 == 0)) [
  | inl e ↦ ground (arith, dec_loop_zero i (num / 10) ((0x30 + num % 10) ∷ buf))
  | inr e ↦
      rw (ne_zero num n)
        (dec_loop_first i (num / 10) _ (omega (arith, pow-suc 10 i)) (ground arith))
]

-- What printing `num` did: `digits` are its decimal digits, sent to the serial port; the screen
-- shows them too, but for a single zero.
pub record Printed (num : ℕ) (k r : Console) : Type 0 where
  pub digits : List ℕ
  pub are_digits : IsDecimal digits
  pub value : decimal 0 digits ≡ num
  pub shortest : num ≢ 0 → HasNoLeadingZero digits
  pub on_serial : sent r ≡ sent k ++ digits
  pub on_screen : r.vga ≡ (if num == 0 then k.vga else vga_write digits k.vga)

zero-Printed : (k : Console) → Printed 0 k (putc 0x30 k)
unfolding putc decimal
zero-Printed k = record {
  digits = 0x30 ∷ [];
  are_digits = omega arith;
  value = refl;
  shortest = λ n. absurd (n refl);
  on_serial = putc-transmitted 0x30 k.serial;
  on_screen = refl;
}

loop-Printed :
    (i num : ℕ) (k : Console) → num < 10 ^ i → num ≢ 0 → Printed num k (puts (dec_loop i num []) k)
unfolding decimal
loop-Printed i num k h n = record {
  digits = dec_loop i num [];
  are_digits = d;
  value = dec_loop-decimal i num [] h;
  shortest = dec_loop_first i num [] h;
  on_serial = (puts_plain _ k (decimal-IsPlain _ d)).0;
  on_screen = rw (ne_zero num n) (puts_plain _ k (decimal-IsPlain _ d)).1;
}
  where
    d : IsDecimal (dec_loop i num [])
    d = dec_loop-IsDecimal i num [] tt

number-Printed :
    (i num : ℕ) (k : Console)
    → num < 10 ^ i
    → Printed num k (if num == 0 then putc 0x30 k else puts (dec_loop i num []) k)
number-Printed i zero k h = zero-Printed k
number-Printed i (suc n) k h =
    rw (ne_zero (suc n) (omega arith)) (loop-Printed i (suc n) k h (omega arith))

-- `print_dec` prints every uint32_t in full, its eleven places being enough: the serial port gets
-- the shortest decimal form, and the screen gets it too unless the number is zero.
print_dec-Printed : (num : ℕ) (k : Console) → num < 2 ^ 32 → Printed num k (print_dec num k)
unfolding print_dec
print_dec-Printed num k h =
    let e : u32 num ≡ num = omega arith in rw e (number-Printed 11 num k (omega arith))

-- So does `print_dec_64` for every uint64_t.
pub print_dec_64-Printed :
    (num : ℕ) (k : Console) → num < 2 ^ 64 → Printed num k (print_dec_64 num k)
unfolding print_dec_64
print_dec_64-Printed num k h =
    let e : u64 num ≡ num = omega arith in rw e (number-Printed 23 num k (omega arith))

-- A hexadecimal digit is neither NUL nor a newline, and there are as many as asked for.
hex_loop-IsPlain : (n num : ℕ) → IsPlain (hex_loop n num)
unfolding hex_loop hex_digit
hex_loop-IsPlain zero num = tt
hex_loop-IsPlain (suc n) num = (ground arith, ground arith, hex_loop-IsPlain n num)

-- "0x" and `n` digits that stand for the number, on the serial port and on the screen.
pub record PrintedHex (n num : ℕ) (k r : Console) : Type 0 where
  pub digits : List ℕ
  pub count : length digits ≡ n
  pub value : hexadecimal 0 digits ≡ num
  pub on_serial : sent r ≡ sent k ++ 0x30 ∷ 0x78 ∷ digits
  pub on_screen : r.vga ≡ vga_write (0x30 ∷ 0x78 ∷ digits) k.vga

length-hex_loop : (n num : ℕ) → length (hex_loop n num) ≡ n
unfolding hex_loop
length-hex_loop zero num = refl
length-hex_loop (suc n) num = ap suc (length-hex_loop n num)

hex-PrintedHex :
    (n num : ℕ) (k : Console)
    → num % 16 ^ n ≡ num
    → PrintedHex n num k (puts (0x30 ∷ 0x78 ∷ hex_loop n num) k)
hex-PrintedHex n num k h = record {
  digits = hex_loop n num;
  count = length-hex_loop n num;
  value = omega (arith, hex_loop-hexadecimal n num 0);
  on_serial = (puts_plain _ k plain).0;
  on_screen = (puts_plain _ k plain).1;
}
  where
    plain : IsPlain (0x30 ∷ 0x78 ∷ hex_loop n num)
    plain = (omega arith, omega arith, (omega arith, omega arith, hex_loop-IsPlain n num))

-- `print_hex` prints a uint32_t as "0x" and eight hexadecimal digits that stand for it, on the
-- serial port and on the screen.
pub print_hex-PrintedHex :
    (num : ℕ) (k : Console) → num < 2 ^ 32 → PrintedHex 8 num k (print_hex num k)
unfolding print_hex
print_hex-PrintedHex num k h =
    let e : u32 num ≡ num = omega arith in rw e (hex-PrintedHex 8 num k (omega arith))

-- What `print_hex_64` sends.
pub print_hex_64-sent :
    (num : ℕ) (k : Console)
    → num < 2 ^ 64
    → sent (print_hex_64 num k) ≡ sent k ++ 0x30 ∷ 0x78 ∷ hex_loop 16 num
unfolding print_hex_64
print_hex_64-sent num k h =
    let e : u64 num ≡ num = omega arith in
    rw e
      (puts_plain _ k
        (omega arith, omega arith, (omega arith, omega arith, hex_loop-IsPlain 16 num))).0

-- `print_hex_64` prints a uint64_t as "0x" and sixteen hexadecimal digits that stand for it, on
-- the serial port and on the screen.
pub print_hex_64-PrintedHex :
    (num : ℕ) (k : Console) → num < 2 ^ 64 → PrintedHex 16 num k (print_hex_64 num k)
unfolding print_hex_64
print_hex_64-PrintedHex num k h =
    let e : u64 num ≡ num = omega arith in rw e (hex-PrintedHex 16 num k (omega arith))
