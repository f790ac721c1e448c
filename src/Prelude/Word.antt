-- ===== src/Prelude/Word.antt =====
-- The unsigned types of C as numbers with the wrap-around written out, and byte-addressed memory.
use Prim.Native.Nat.{ℕ, ◌+◌, ◌-◌, ◌*◌, ◌/◌, ◌%◌, ◌^◌, ◌<◌}
use zig_boot.Prelude.Tests.{◌==◌, if◌then◌else◌}

abbrev pub u8 : ℕ → ℕ
u8 n = n % 2 ^ 8

abbrev pub u16 : ℕ → ℕ
u16 n = n % 2 ^ 16

abbrev pub u32 : ℕ → ℕ
u32 n = n % 2 ^ 32

abbrev pub u64 : ℕ → ℕ
u64 n = n % 2 ^ 64

-- `a - b` on uint64_t; `-` on ℕ stops at 0.
abbrev pub sub64 : ℕ → ℕ → ℕ
sub64 a b = (a + 2 ^ 64 - b) % 2 ^ 64

-- `x & ~(2 ^ k - 1)`, on a type that holds `x`.
abbrev pub clear_low : ℕ → ℕ → ℕ
clear_low k x = x / 2 ^ k * 2 ^ k

-- An array, or memory: what each index holds.
abbrev pub Array : Type 0
Array = ℕ → ℕ

abbrev pub store : Array → ℕ → ℕ → Array
store m i v j = if i == j then v else m j

-- Little-endian reads.
unfoldable pub read16 : Array → ℕ → ℕ
read16 m a = m a + 2 ^ 8 * m (a + 1)

unfoldable pub read32 : Array → ℕ → ℕ
unfolding read16
read32 m a = read16 m a + 2 ^ 16 * read16 m (a + 2)

unfoldable pub read64 : Array → ℕ → ℕ
unfolding read32
read64 m a = read32 m a + 2 ^ 32 * read32 m (a + 4)

-- Every cell is a byte.
abbrev pub IsBytes : Array → Type 0
IsBytes m = (a : ℕ) → m a < 256

-- Little-endian writes.
unfoldable pub write16 : Array → ℕ → ℕ → Array
write16 m a v = store (store m a (v % 2 ^ 8)) (a + 1) (v / 2 ^ 8 % 2 ^ 8)

unfoldable pub write32 : Array → ℕ → ℕ → Array
unfolding write16
write32 m a v = write16 (write16 m a v) (a + 2) (v / 2 ^ 16)

unfoldable pub write64 : Array → ℕ → ℕ → Array
unfolding write32
write64 m a v = write32 (write32 m a v) (a + 4) (v / 2 ^ 32)
