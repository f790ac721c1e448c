-- ===== src/Memory.antt =====
-- c/kernel/minimal_step9.c, `memset` and `memcpy` on memory by bytes.
pub mod Words
use zig_boot.Prelude.{
  ℕ, ◌+◌, ◌≤◌, ◌<◌, ◌≡◌, ◌&&◌, arith, ltb, leb, if◌then◌else◌, u8, Array, store, read32, read64,
  for_range, for_range_inv, ◌⊎◌, ◌-◌,
}

-- `while (n--) *d++ = (uint8_t)val;`
pub memset : ℕ → ℕ → ℕ → Array → Array
memset dest val n m = for_range n 0 (λ i b. store b (dest + i) (u8 val)) m

-- `while (n--) *d++ = *s++;`
pub memcpy : ℕ → ℕ → ℕ → Array → Array
memcpy dest src n m = for_range n 0 (λ i b. store b (dest + i) (b (src + i))) m

-- `memset` fills its range and leaves the rest.
pub memset-cell :
    (dest val n : ℕ) (m : Array) (a : ℕ)
    → memset dest val n m a ≡ (if leb dest a && ltb a (dest + n) then u8 val else m a)
unfolding memset
memset-cell dest val n m =
    for_range_inv (λ i b. (a : ℕ) → b a ≡ (if leb dest a && ltb a (dest + i) then u8 val else m a))
      _ n 0 n m (omega arith) (λ i b lo hi h a. ground (arith, h a)) (λ a. ground arith)

-- `memcpy` between ranges that do not overlap copies the source and leaves the rest.
pub memcpy-cell :
    (dest src n : ℕ) (m : Array)
    → (dest + n ≤ src) ⊎ (src + n ≤ dest)
    → (a : ℕ)
    → memcpy dest src n m a ≡ (if leb dest a && ltb a (dest + n) then m (src + (a - dest)) else m a)
unfolding memcpy
memcpy-cell dest src n m apart =
    for_range_inv
      (λ i b.
        (a : ℕ) → b a ≡ (if leb dest a && ltb a (dest + i) then m (src + (a - dest)) else m a))
      _ n 0 n m (omega arith) (λ i b lo hi h a. ground (arith, h a, h (src + i), apart))
      (λ a. ground arith)

-- Reads see no more than their bytes.
pub read32_ext :
    (m b : Array) (a : ℕ) → ((i : ℕ) → a ≤ i → i < a + 4 → b i ≡ m i) → read32 b a ≡ read32 m a
unfolding read32
read32_ext m b a h = ground (arith, h a, h (a + 1), h (a + 2), h (a + 2 + 1))

pub read64_ext :
    (m b : Array) (a : ℕ) → ((i : ℕ) → a ≤ i → i < a + 8 → b i ≡ m i) → read64 b a ≡ read64 m a
unfolding read64
read64_ext m b a h = ground (
  arith,
  read32_ext m b a (λ i p q. h i p (omega arith)),
  read32_ext m b (a + 4) (λ i p q. h i (omega arith) (omega arith)),
)
