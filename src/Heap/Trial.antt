-- ===== src/Heap/Trial.antt =====
-- c/kernel/minimal_step9.c, `test_heap_allocator`: three allocations of the kernel heap, each written
-- to, and what is printed about them.
pub mod Blocks
pub mod Passed
use zig_boot.Prelude.{
  ℕ, zero, suc, ◌+◌, ◌*◌, ◌^◌, Bool, true, false, ◌==◌, if◌then◌else◌, u8, u32, Array, store,
  read32, write32, write64, for_range,
}
use zig_boot.Console.{text}
use zig_boot.Kernel.{Kernel, puts}
use zig_boot.Heap.{kmalloc, kfree}

-- `array[i] = i * 2` for 100 elements of 4 bytes.
pub fill_array : ℕ → Array → Array
fill_array array m = for_range 100 0 (λ i b. write32 b (array + 4 * i) (i * 2)) m

-- The loop that breaks off at the first element that is not `i * 2`, with `n` elements left.
pub verify_array : ℕ → ℕ → ℕ → Array → Bool
verify_array zero i array m = true
verify_array (suc n) i array m =
    let rest = verify_array n (i + 1) array m in
    if read32 m (array + 4 * i) == u32 (i * 2) then rest else false

-- The members `a`, `b` and `c` of the structure, at 0, 8 and 12.
pub fill_struct : ℕ → Array → Array
fill_struct s m =
    for_range 16 0 (λ i b. store b (s + 12 + i) (u8 i))
      (write32 (write64 m s 0x123456789ABCDEF0) (s + 8) 0xCAFEBABE)

-- `sizeof(*s)`: 28 bytes of members, padded to the alignment of `a`.
abbrev pub sizeof_struct : ℕ
sizeof_struct = 32

pub test_struct : Kernel → Kernel
unfolding fill_struct
test_struct k =
    let (k1, s) = kmalloc sizeof_struct (puts (text "[Test 3] Allocating struct...\n") k) in
    let k2 = record k1 { mem = fill_struct s k1.mem } in
    let k3 = kfree s (puts (text "[Test 3] PASSED - struct allocated and initialized\n") k2) in
    if s == 0
    then puts (text "[Test 3] FAILED - allocation error\n") k1
    else puts (text "[Allocator Test] All tests passed!\n\n") k3

pub test_array : Kernel → Kernel
unfolding fill_array verify_array test_struct
test_array k =
    let (k1, array) =
      kmalloc (100 * 4) (puts (text "[Test 2] Allocating array of 100 uint32_t...\n") k) in
    let k2 = record k1 { mem = fill_array array k1.mem } in
    let k3 =
      if verify_array 100 0 array k2.mem
      then puts (text "[Test 2] PASSED - array allocated and verified\n") k2
      else puts (text "[Test 2] FAILED - data corruption\n") k2 in
    if array == 0
    then puts (text "[Test 2] FAILED - allocation error\n") k1
    else test_struct (kfree array k3)

pub test_heap_allocator : Kernel → Kernel
unfolding test_array
test_heap_allocator k0 =
    let k =
      puts (text "[Test 1] Allocating single uint64_t...\n")
        (puts (text "\n[Allocator Test] Testing C heap allocator (kmalloc/kfree)...\n") k0) in
    let (k1, single) = kmalloc 8 k in
    let k2 = record k1 { mem = write64 k1.mem single 0xDEADBEEF } in
    let k3 = kfree single (puts (text "[Test 1] PASSED - allocated and wrote value\n") k2) in
    if single == 0 then puts (text "[Test 1] FAILED - allocation error\n") k1 else test_array k3
