-- ===== src/Heap/Trial/Blocks.antt =====
-- What the loops of `test_heap_allocator` write, and the blocks that it gets.
use zig_boot.Prelude.{
  ℕ, zero, suc, ◌+◌, ◌*◌, ◌%◌, ◌^◌, ◌≤◌, ◌<◌, ◌≡◌, ◌⊎◌, inl, inr, refl, ◌∙◌, true, false, arith,
  ◌==◌, leb, Bool-cases, u32, u64, Array, read32, write32, write64, for_range_inv,
}
use zig_boot.Memory.Words.{write32-other, write64-other, read32-write32, read32-write32-other}
use zig_boot.Kernel.{Kernel}
use zig_boot.Heap.{round_up, kmalloc}
use zig_boot.Heap.Trial.{fill_array, verify_array, fill_struct}

-- The elements are what the loop wrote, and the other bytes are as before.
pub fill_array-elements :
    (array : ℕ) (m : Array)
    → ((j : ℕ) → j < 100 → read32 (fill_array array m) (array + 4 * j) ≡ j * 2)
      × ((a : ℕ) → (a < array) ⊎ (array + 400 ≤ a) → fill_array array m a ≡ m a)
unfolding fill_array
fill_array-elements array m =
    for_range_inv
      (λ i b.
        ((j : ℕ) → j < i → read32 b (array + 4 * j) ≡ j * 2)
        × ((a : ℕ) → (a < array) ⊎ (array + 400 ≤ a) → b a ≡ m a))
      _ 100 0 100 m (omega arith)
      (λ i b lo hi (el, fr). (
        λ j lt. elim (Bool-cases (j == i)) [
          | inl e ↦
              let e' : j ≡ i = ground arith in
              rw e' (read32-write32 b (array + 4 * i) (i * 2) ∙ omega arith)
          | inr e ↦
              read32-write32-other b (array + 4 * i) (i * 2) (array + 4 * j) (ground arith)
              ∙ el j (ground arith)
        ],
        λ a out. write32-other b (array + 4 * i) (i * 2) a (ground arith) ∙ fr a out,
      ))
      (λ j lt. absurd (omega arith), λ a out. refl)

pub verify_array-true :
    (n i array : ℕ) (m : Array)
    → i + n ≡ 100
    → ((j : ℕ) → j < 100 → read32 m (array + 4 * j) ≡ j * 2)
    → verify_array n i array m ≡ true
unfolding verify_array
verify_array-true zero i array m e h = refl
verify_array-true (suc n) i array m e h =
    let here : (read32 m (array + 4 * i) == u32 (i * 2)) ≡ true = ground (arith, h i) in
    rw here (verify_array-true n (i + 1) array m (omega arith) h)

-- The structure keeps to its 28 bytes.
pub fill_struct-other :
    (s : ℕ) (m : Array) (a : ℕ) → (a < s) ⊎ (s + 28 ≤ a) → fill_struct s m a ≡ m a
unfolding fill_struct
fill_struct-other s m a out =
    let m1 = write64 m s 0x123456789ABCDEF0 in
    let m2 = write32 m1 (s + 8) 0xCAFEBABE in
    for_range_inv (λ i b. b a ≡ m a) _ 16 0 16 m2 (omega arith) (λ i b lo hi h. ground arith)
      (write32-other m1 (s + 8) 0xCAFEBABE a (ground arith)
        ∙ write64-other m s 0x123456789ABCDEF0 a (ground arith))

-- A block is cut off the heap that has room for it.
pub kmalloc_block :
    (size : ℕ) (k : Kernel)
    → 0 < size
    → k.heap_current % 16 ≡ 0
    → k.heap_end < 2 ^ 63
    → k.heap_current + round_up size < k.heap_end
    → kmalloc size k ≡ (record k { heap_current = k.heap_current + round_up size }, k.heap_current)
unfolding kmalloc
kmalloc_block size k pos al lim room =
    let asked : (size == 0) ≡ false = ground arith in
    let fits : u64 (k.heap_current + round_up size) ≡ k.heap_current + round_up size =
      omega arith in
    let below : leb k.heap_end (k.heap_current + round_up size) ≡ false = ground arith in
    rw (asked, fits, below) refl
