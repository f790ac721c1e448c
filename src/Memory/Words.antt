-- ===== src/Memory/Words.antt =====
-- Words in memory by bytes: what is written is read back, and a write leaves the other bytes.
use zig_boot.Prelude.{
  ℕ, ◌+◌, ◌/◌, ◌%◌, ◌^◌, ◌≤◌, ◌<◌, ◌≡◌, ◌∙◌, refl, arith, Array, IsBytes, u64, read16, read32,
  read64, write16, write32, write64, ◌⊎◌,
}
use zig_boot.Memory.{read32_ext, read64_ext}

read16-write16 : (m : Array) (a v : ℕ) → read16 (write16 m a v) a ≡ v % 2 ^ 16
unfolding read16 write16
read16-write16 m a v = ground arith

write16-other : (m : Array) (a v b : ℕ) → (b < a) ⊎ (a + 2 ≤ b) → write16 m a v b ≡ m b
unfolding write16
write16-other m a v b h = ground arith

pub write32-other : (m : Array) (a v b : ℕ) → (b < a) ⊎ (a + 4 ≤ b) → write32 m a v b ≡ m b
unfolding write32
write32-other m a v b h =
    write16-other (write16 m a v) (a + 2) _ b (ground arith) ∙ write16-other m a v b (ground arith)

pub write64-other : (m : Array) (a v b : ℕ) → (b < a) ⊎ (a + 8 ≤ b) → write64 m a v b ≡ m b
unfolding write64
write64-other m a v b h =
    write32-other (write32 m a v) (a + 4) _ b (ground arith) ∙ write32-other m a v b (ground arith)

read16_ext : (m b : Array) (a : ℕ) → b a ≡ m a → b (a + 1) ≡ m (a + 1) → read16 b a ≡ read16 m a
unfolding read16
read16_ext m b a h k = rw (h, k) refl

pub read32-write32 : (m : Array) (a v : ℕ) → read32 (write32 m a v) a ≡ v % 2 ^ 32
unfolding read32 write32
read32-write32 m a v =
    let t = write16 m a v in
    let low =
      read16_ext t (write16 t (a + 2) (v / 2 ^ 16)) a (write16-other t (a + 2) _ a (ground arith))
        (write16-other t (a + 2) _ (a + 1) (ground arith)) in
    rw (low, read16-write16 m a v, read16-write16 t (a + 2) (v / 2 ^ 16)) (omega arith)

pub read64-write64 : (m : Array) (a v : ℕ) → read64 (write64 m a v) a ≡ u64 v
unfolding read64 write64
read64-write64 m a v =
    let t = write32 m a v in
    let low =
      read32_ext t (write32 t (a + 4) (v / 2 ^ 32)) a
        (λ i p q. write32-other t (a + 4) _ i (ground arith)) in
    rw (low, read32-write32 m a v, read32-write32 t (a + 4) (v / 2 ^ 32)) (omega arith)

-- A word elsewhere is read as before.
pub read64-write64-other :
    (m : Array) (a v b : ℕ) → (b + 8 ≤ a) ⊎ (a + 8 ≤ b) → read64 (write64 m a v) b ≡ read64 m b
read64-write64-other m a v b h =
    read64_ext m (write64 m a v) b (λ i p q. write64-other m a v i (ground arith))

pub read32-write32-other :
    (m : Array) (a v b : ℕ) → (b + 4 ≤ a) ⊎ (a + 4 ≤ b) → read32 (write32 m a v) b ≡ read32 m b
read32-write32-other m a v b h =
    read32_ext m (write32 m a v) b (λ i p q. write32-other m a v i (ground arith))

-- Writes keep memory a memory of bytes.
pub write32-IsBytes : (m : Array) (a v : ℕ) → IsBytes m → IsBytes (write32 m a v)
unfolding write32 write16
write32-IsBytes m a v b i = ground (arith, b i)

pub write64-IsBytes : (m : Array) (a v : ℕ) → IsBytes m → IsBytes (write64 m a v)
unfolding write64
write64-IsBytes m a v b = write32-IsBytes _ (a + 4) _ (write32-IsBytes m a v b)
