-- ===== src/Prelude/Bits.antt =====
-- Single bits of a byte: what `|= 1 << k` and `&= ~(1 << k)` do, checked for every byte.
use Prim.Native.Nat.{ℕ, zero, suc, ◌-◌, ◌^◌, ◌<◌, bit_and, bit_or}
use mathlib.Core.Path.{◌≡◌, refl}
use mathlib.Core.Bool.{Bool, true, false, not}
use native.Mathlib.Omega.{arith}
use zig_boot.Prelude.Tests.{◌==◌, if◌then◌else◌}
use zig_boot.Prelude.Word.{u8}

-- A table of the values of `p` below `n`, and what it says at one index.
unfoldable pub holds_below : ℕ → (ℕ → Bool) → Bool
holds_below zero p = true
holds_below (suc n) p = if p n then holds_below n p else false

pub table_entry : (p : ℕ → Bool) (n i : ℕ) → i < n → holds_below n p ≡ true → p i ≡ true
unfolding holds_below
table_entry p zero i l t = absurd (omega arith)
table_entry p (suc n) i l t = ground (arith, table_entry p n i)

-- `(x & (1 << k)) != 0`
unfoldable pub test_bit : ℕ → ℕ → Bool
test_bit x k = not (bit_and x (2 ^ k) == 0)

-- `x |= (1 << k)` on a uint8_t
unfoldable pub set_bit : ℕ → ℕ → ℕ
set_bit x k = u8 (bit_or x (2 ^ k))

-- `x &= ~(1 << k)` on a uint8_t; the complement is taken of an int.
unfoldable pub clear_bit : ℕ → ℕ → ℕ
clear_bit x k = u8 (bit_and x (2 ^ 32 - 1 - 2 ^ k))

abbrev Bool-eq : Bool → Bool → Bool
Bool-eq true b = b
Bool-eq false b = not b

Bool-eq_sound : (a b : Bool) → Bool-eq a b ≡ true → a ≡ b
Bool-eq_sound a b h = ground arith

set_table :
    holds_below 256 (λ x. holds_below 8 (λ k.
      holds_below 8
        (λ j. Bool-eq (test_bit (set_bit x k) j) (if k == j then true else test_bit x j))))
    ≡ true
unfolding holds_below test_bit set_bit
set_table = refl

clear_table :
    holds_below 256 (λ x. holds_below 8 (λ k.
      holds_below 8
        (λ j. Bool-eq (test_bit (clear_bit x k) j) (if k == j then false else test_bit x j))))
    ≡ true
unfolding holds_below test_bit clear_bit
clear_table = refl

pub test_bit-set_bit :
    (x k j : ℕ)
    → x < 256
    → k < 8
    → j < 8
    → test_bit (set_bit x k) j ≡ (if k == j then true else test_bit x j)
test_bit-set_bit x k j hx hk hj =
    Bool-eq_sound _ _
      (table_entry _ 8 j hj (table_entry _ 8 k hk (table_entry _ 256 x hx set_table)))

pub test_bit-clear_bit :
    (x k j : ℕ)
    → x < 256
    → k < 8
    → j < 8
    → test_bit (clear_bit x k) j ≡ (if k == j then false else test_bit x j)
test_bit-clear_bit x k j hx hk hj =
    Bool-eq_sound _ _
      (table_entry _ 8 j hj (table_entry _ 8 k hk (table_entry _ 256 x hx clear_table)))

pub set_bit-lt : (x k : ℕ) → set_bit x k < 256
unfolding set_bit
set_bit-lt x k = omega arith

pub clear_bit-lt : (x k : ℕ) → clear_bit x k < 256
unfolding clear_bit
clear_bit-lt x k = omega arith

zero_table : holds_below 8 (λ j. not (test_bit 0 j)) ≡ true
unfolding holds_below test_bit
zero_table = refl

ones_table : holds_below 8 (test_bit 0xFF) ≡ true
unfolding holds_below test_bit
ones_table = refl

pub zero_bits : (j : ℕ) → j < 8 → test_bit 0 j ≡ false
zero_bits j h = ground (arith, table_entry (λ i. not (test_bit 0 i)) 8 j h zero_table)

pub one_bits : (j : ℕ) → j < 8 → test_bit 0xFF j ≡ true
one_bits j h = table_entry (test_bit 0xFF) 8 j h ones_table
