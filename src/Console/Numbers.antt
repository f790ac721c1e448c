-- ===== src/Console/Numbers.antt =====
-- The printed digits read back as the number.
use native.Mathlib.Nat.{pow-suc, div-div-eq-div-mul, mod-add-div'}
use zig_boot.Prelude.{
  ℕ, zero, suc, ◌+◌, ◌-◌, ◌*◌, ◌/◌, ◌%◌, ◌^◌, ◌≤◌, ◌<◌, ◌≡◌, refl, ◌≢◌, List, [], ◌∷◌, arith, ltb,
  if◌then◌else◌, inl, inr, ◌==◌, Bool-cases, ap,
}
use zig_boot.Console.{dec_loop, hex_digit, hex_loop}

-- The number that decimal digits stand for, read from the left after `acc`.
unfoldable pub decimal : ℕ → List ℕ → ℕ
decimal acc [] = acc
decimal acc (c ∷ cs) = decimal (acc * 10 + (c - 0x30)) cs

-- Hexadecimal digits, '0' to '9' and 'A' to 'F'.
pub hex_value : ℕ → ℕ
hex_value c = if ltb c 0x3A then c - 0x30 else c - 0x37

unfoldable pub hexadecimal : ℕ → List ℕ → ℕ
unfolding hex_value
hexadecimal acc [] = acc
hexadecimal acc (c ∷ cs) = hexadecimal (acc * 16 + hex_value c) cs

abbrev pub IsDecimal : List ℕ → Type 0
IsDecimal [] = Unit
IsDecimal (c ∷ cs) = (0x30 ≤ c) × (c ≤ 0x39) × IsDecimal cs

-- The first character is no '0', so that no shorter text stands for the number.
abbrev pub HasNoLeadingZero : List ℕ → Type 0
HasNoLeadingZero [] = ⊥
HasNoLeadingZero (c ∷ cs) = c ≢ 0x30

pub dec_loop-decimal :
    (i num : ℕ) (buf : List ℕ) → num < 10 ^ i → decimal 0 (dec_loop i num buf) ≡ decimal num buf
unfolding dec_loop decimal
dec_loop-decimal zero num buf h = let e : num ≡ 0 = omega arith in rw e
dec_loop-decimal (suc i) num buf h = ground (
  arith,
  pow-suc 10 i,
  dec_loop-decimal i (num / 10) ((0x30 + num % 10) ∷ buf) (omega (arith, pow-suc 10 i)),
)

pub dec_loop-IsDecimal : (i num : ℕ) (buf : List ℕ) → IsDecimal buf → IsDecimal (dec_loop i num buf)
unfolding dec_loop
dec_loop-IsDecimal zero num buf h = h
dec_loop-IsDecimal (suc i) num buf h = elim (Bool-cases (num == 0)) [
  | inl e ↦ rw e h
  | inr e ↦ rw e (dec_loop-IsDecimal i (num / 10) _ (omega arith, omega arith, h))
]

two_pow_four : (n : ℕ) → 2 ^ (4 * n) ≡ 16 ^ n
two_pow_four zero = refl
two_pow_four (suc n) =
    let e : 4 * suc n ≡ suc (suc (suc (suc (4 * n)))) = omega arith in
    rw e (
      omega (
        arith,
        pow-suc 2 (4 * n),
        pow-suc 2 (suc (4 * n)),
        pow-suc 2 (suc (suc (4 * n))),
        pow-suc 2 (suc (suc (suc (4 * n)))),
        pow-suc 16 n,
        two_pow_four n,
      ))

mod_split : (a q : ℕ) → a % (q * 16) ≡ a / q % 16 * q + a % q
mod_split a q =
    let digit : a / q ≡ 16 * (a / q / 16) + a / q % 16 = omega arith in
    omega (
      arith,
      mod-add-div' a (q * 16),
      mod-add-div' a q,
      ap (λ (t : ℕ). t * q) digit,
      ap (λ (t : ℕ). t * (q * 16)) (div-div-eq-div-mul a q 16),
    )

hex_value-hex_digit : (d : ℕ) → d < 16 → hex_value (hex_digit d) ≡ d
unfolding hex_value hex_digit
hex_value-hex_digit d h = ground arith

-- `n` digits show the number modulo 16 ^ n.
pub hex_loop-hexadecimal :
    (n num acc : ℕ) → hexadecimal acc (hex_loop n num) ≡ acc * 16 ^ n + num % 16 ^ n
unfolding hex_loop hexadecimal
hex_loop-hexadecimal zero num acc = omega arith
hex_loop-hexadecimal (suc n) num acc =
    rw (two_pow_four n, hex_value-hex_digit (num / 16 ^ n % 16) (omega arith))
      (omega (
        arith,
        hex_loop-hexadecimal n num (acc * 16 + num / 16 ^ n % 16),
        pow-suc 16 n,
        mod_split num (16 ^ n),
        ap (λ (t : ℕ). num % t) (pow-suc 16 n),
        ap (λ (t : ℕ). acc * t) (pow-suc 16 n),
      ))
