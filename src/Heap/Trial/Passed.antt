-- ===== src/Heap/Trial/Passed.antt =====
-- On a heap with room every test of `test_heap_allocator` passes.
use zig_boot.Prelude.{
  ℕ, ◌+◌, ◌*◌, ◌%◌, ◌^◌, ◌≤◌, ◌<◌, ◌≡◌, ◌⊎◌, inl, refl, ap, ap₂, ◌∙◌, true, false, arith, ◌==◌,
  Array, IsBytes, read32, read64, write32, write64, for_range_inv, List, [], ◌∷◌,
}
use zig_boot.Memory.{read64_ext, read32_ext}
use zig_boot.Memory.Words.{write64-other, write32-IsBytes, write64-IsBytes, read64-write64}
use zig_boot.Console.{text}
use zig_boot.Kernel.{Kernel, puts}
use zig_boot.Heap.{kfree}
use zig_boot.Heap.Trial.{
  fill_array, verify_array, fill_struct, test_struct, test_array, test_heap_allocator,
}
use zig_boot.Console.Text.{says}
use zig_boot.Heap.Trial.Blocks.{
  fill_array-elements, verify_array-true, fill_struct-other, kmalloc_block,
}

abbrev struct_lines : List (List ℕ)
struct_lines =
    text "[Test 3] Allocating struct...\n"
    ∷ text "[Test 3] PASSED - struct allocated and initialized\n"
    ∷ text "[Allocator Test] All tests passed!\n\n"
    ∷ []

abbrev array_lines : List (List ℕ)
array_lines =
    text "[Test 2] Allocating array of 100 uint32_t...\n"
    ∷ text "[Test 2] PASSED - array allocated and verified\n"
    ∷ struct_lines

abbrev pub passed_lines : List (List ℕ)
passed_lines =
    text "\n[Allocator Test] Testing C heap allocator (kmalloc/kfree)...\n"
    ∷ text "[Test 1] Allocating single uint64_t...\n"
    ∷ text "[Test 1] PASSED - allocated and wrote value\n"
    ∷ array_lines

-- There is room for `n` more bytes.
abbrev pub HasRoom : ℕ → Kernel → Type 0
HasRoom n k =
    (0 < k.heap_current)
    × (k.heap_current % 16 ≡ 0)
    × (k.heap_end < 2 ^ 63)
    × (k.heap_current + n < k.heap_end)

abbrev pub after : ℕ → Array → List (List ℕ) → Kernel → Kernel
after n mem lines k = record k {
  heap_current = k.heap_current + n;
  mem = mem;
  console = says lines k.console;
}

struct_passes :
    (k : Kernel)
    → HasRoom 32 k
    → test_struct k ≡ after 32 (fill_struct k.heap_current k.mem) struct_lines k
unfolding test_struct kfree
struct_passes k (pos, al, lim, room) =
    let given : (k.heap_current == 0) ≡ false = ground arith in
    let k1 = puts (text "[Test 3] Allocating struct...\n") k in
    rw (kmalloc_block 32 k1 (omega arith) al lim room, given) refl

array_passes :
    (k : Kernel)
    → HasRoom 432 k
    → let array = k.heap_current in
      test_array k ≡ after 432 (fill_struct (array + 400) (fill_array array k.mem)) array_lines k
unfolding test_array kfree
array_passes k (pos, al, lim, room) =
    let given : (k.heap_current == 0) ≡ false = ground arith in
    let k1 = puts (text "[Test 2] Allocating array of 100 uint32_t...\n") k in
    let array = k.heap_current in
    let verified : verify_array 100 0 array (fill_array array k.mem) ≡ true =
      verify_array-true 100 0 array (fill_array array k.mem) refl
        (fill_array-elements array k.mem).0 in
    let k2 =
      puts (text "[Test 2] PASSED - array allocated and verified\n")
        (record k1 { mem = fill_array array k.mem; heap_current = array + 400 }) in
    let top : array + 400 + 32 ≡ array + 432 = omega arith in
    rw (kmalloc_block 400 k1 (omega arith) al lim (omega arith), given, verified)
      (struct_passes k2 (omega arith, omega arith, lim, omega arith)
        ∙ ap
            (λ n.
              record (after 432 (fill_struct (array + 400) (fill_array array k.mem)) array_lines
                k) { heap_current = n })
            top)

-- Memory after the three tests, the first block being at `single`.
abbrev pub trial_memory : ℕ → Array → Array
trial_memory single m =
    fill_struct (single + 416) (fill_array (single + 16) (write64 m single 0xDEADBEEF))

pub heap_passes :
    (k : Kernel)
    → HasRoom 448 k
    → test_heap_allocator k ≡ after 448 (trial_memory k.heap_current k.mem) passed_lines k
unfolding test_heap_allocator kfree
heap_passes k (pos, al, lim, room) =
    let given : (k.heap_current == 0) ≡ false = ground arith in
    let k1 =
      puts (text "[Test 1] Allocating single uint64_t...\n")
        (puts (text "\n[Allocator Test] Testing C heap allocator (kmalloc/kfree)...\n") k) in
    let array = k.heap_current + 16 in
    let m1 = write64 k.mem k.heap_current 0xDEADBEEF in
    let k2 =
      puts (text "[Test 1] PASSED - allocated and wrote value\n")
        (record k1 { mem = m1; heap_current = array }) in
    let top : array + 432 ≡ k.heap_current + 448 = omega arith in
    let third : array + 400 ≡ k.heap_current + 416 = omega arith in
    rw
      (
        kmalloc_block 8 k1 (omega arith) al lim (omega arith),
        given,
        array_passes k2 (omega arith, omega arith, lim, omega arith),
      )
      (ap₂
        (λ n s. record (after 448 (fill_struct s (fill_array array m1)) passed_lines k) {
          heap_current = n;
        })
        top third)

pub trial_memory-other :
    (single : ℕ) (m : Array) (a : ℕ)
    → (a < single) ⊎ (single + 448 ≤ a)
    → trial_memory single m a ≡ m a
trial_memory-other single m a out =
    let m1 = write64 m single 0xDEADBEEF in
    let m2 = fill_array (single + 16) m1 in
    fill_struct-other (single + 416) m2 a (ground arith)
    ∙ (fill_array-elements (single + 16) m1).1 a (ground arith)
    ∙ write64-other m single 0xDEADBEEF a (ground arith)

-- On a heap with 448 bytes of room `test_heap_allocator` prints exactly the lines of three tests
-- that passed, reserves those 448 bytes and writes to no others, and the number and the array that
-- it wrote first still stand in their blocks at the end.
pub test_heap_allocator-passed_lines :
    (k : Kernel)
    → HasRoom 448 k
    → let t = test_heap_allocator k in
      (t.console ≡ says passed_lines k.console)
      × (t.heap_current ≡ k.heap_current + 448)
      × (read64 t.mem k.heap_current ≡ 0xDEADBEEF)
      × ((j : ℕ) → j < 100 → read32 t.mem (k.heap_current + 16 + 4 * j) ≡ j * 2)
      × ((a : ℕ) → (a < k.heap_current) ⊎ (k.heap_current + 448 ≤ a) → t.mem a ≡ k.mem a)
test_heap_allocator-passed_lines k h =
    let (pos, al, lim, room) = h in
    let single = k.heap_current in
    let array = single + 16 in
    let m1 = write64 k.mem single 0xDEADBEEF in
    let (elements, array_frame) = fill_array-elements array m1 in
    let m2 = fill_array array m1 in
    let m3 = trial_memory single k.mem in
    let struct_frame = fill_struct-other (single + 416) m2 in
    rw (heap_passes k h) (
      refl,
      refl,
      read64_ext m2 m3 single (λ i p q. struct_frame i (inl (omega arith)))
          ∙ read64_ext m1 m2 single (λ i p q. array_frame i (inl (omega arith)))
          ∙ read64-write64 k.mem single 0xDEADBEEF,
      λ j lt.
          read32_ext m2 m3 (array + 4 * j) (λ i p q. struct_frame i (inl (omega arith)))
          ∙ elements j lt,
      trial_memory-other single k.mem,
    )

pub trial_memory-IsBytes : (single : ℕ) (m : Array) → IsBytes m → IsBytes (trial_memory single m)
unfolding fill_array fill_struct
trial_memory-IsBytes single m b =
    let array = single + 16 in
    let s = single + 416 in
    let m1 = write64 m single 0xDEADBEEF in
    let filled : IsBytes (fill_array array m1) =
      for_range_inv (λ i b. IsBytes b) _ 100 0 100 m1 (omega arith)
        (λ i t lo hi h. write32-IsBytes t (array + 4 * i) (i * 2) h)
        (write64-IsBytes m single 0xDEADBEEF b) in
    let m2 = fill_array array m1 in
    let m3 = write32 (write64 m2 s 0x123456789ABCDEF0) (s + 8) 0xCAFEBABE in
    for_range_inv (λ i b. IsBytes b) _ 16 0 16 m3 (omega arith)
      (λ i t lo hi h a. ground (arith, h a))
      (write32-IsBytes _ (s + 8) 0xCAFEBABE (write64-IsBytes m2 s 0x123456789ABCDEF0 filled))
