-- ===== src/Prelude/Fields.antt =====
-- `|` of two values whose bits do not meet is their sum.
use Prim.Native.Nat.{
  ℕ, zero, suc, ◌+◌, ◌*◌, ◌/◌, ◌^◌, ◌≤◌, ◌<◌, max, digits, bit_or, bit_or-bitwise,
}
use mathlib.Core.Path.{◌≡◌, refl, ap, ◌∙◌}
use native.Mathlib.Nat.{pow-suc, le_refl}
use native.Mathlib.Omega.{arith}

abbrev merge : ℕ → ℕ → ℕ → ℕ
merge = digits (λ y. y) max

-- The fuel `n` bounds the high part, of which each round takes a digit.
merge_apart : (n k a q r : ℕ) → a ≡ q * 2 ^ k → a ≤ n → r < 2 ^ k → merge n a r ≡ a + r
merge_apart zero k a q r e h l = omega arith
merge_apart (suc n) k zero q r e h l = omega arith
merge_apart (suc n) zero (suc a) q r e h l = omega (
  arith,
  merge_apart n 0 (suc a / 2) (suc a / 2) (r / 2) (omega arith) (omega arith) (omega arith),
)
merge_apart (suc n) (suc k) (suc a) q r e h l =
    let half : q * 2 ^ suc k ≡ 2 * (q * 2 ^ k) =
      omega (arith, ap (λ (t : ℕ). q * t) (pow-suc 2 k)) in
    let rest =
      merge_apart n k (suc a / 2) q (r / 2) (omega arith) (omega arith)
        (omega (arith, pow-suc 2 k)) in
    omega (arith, half, rest)

pub bit_or_apart : (k q r : ℕ) → r < 2 ^ k → bit_or (q * 2 ^ k) r ≡ q * 2 ^ k + r
bit_or_apart k q r l =
    bit_or-bitwise (q * 2 ^ k) r ∙ merge_apart (q * 2 ^ k) k (q * 2 ^ k) q r refl (le_refl _) l
