-- ===== src/Heap/Alloc.antt =====
-- What a sequence of allocations gets from the heap.
use zig_boot.Prelude.{
  ℕ, suc, ◌+◌, ◌%◌, ◌^◌, ◌≤◌, ◌<◌, ◌≡◌, refl, ◌∙◌, ap, ◌⊎◌, inl, inr, false, List, [], ◌∷◌, arith,
  ◌==◌, leb, if◌then◌else◌, u64, Bool-cases, length,
}
use zig_boot.Kernel.{Kernel}
use zig_boot.Heap.{round_up, kmalloc}

-- The heap starts on a 16-byte boundary past address 0 and ends below 2 ^ 63.
pub record IsHeap (k : Kernel) : Type 0 where
  pub started : k.heap_start ≤ k.heap_current
  pub aligned : k.heap_current % 16 ≡ 0
  pub positive : 0 < k.heap_start
  pub limit : k.heap_end < 2 ^ 63

-- A block that was handed out.
pub record Block : Type 0 where
  pub at : ℕ
  pub size : ℕ

-- The blocks after one more request: the new one first, none when the pointer is null.
abbrev pub with_block : ℕ → ℕ → List Block → List Block
with_block size ptr blocks = if ptr == 0 then blocks else record { at = ptr; size = size } ∷ blocks

-- Requests in order; the blocks of those that succeed, the last first.
pub run : List ℕ → List Block → Kernel → Kernel × List Block
run [] blocks k = (k, blocks)
run (n ∷ ns) blocks k = let (t, ptr) = kmalloc n k in run ns (with_block n ptr blocks) t

-- Every block has a size, starts on a 16-byte boundary and ends before `hi` and at `top` at most,
-- and the blocks that were handed out before it end where it starts, at most, and none is below `lo`.
abbrev pub Packed : ℕ → ℕ → ℕ → List Block → Type 0
Packed lo hi top [] = lo ≤ top
Packed lo hi top (b ∷ bs) =
    (b.at % 16 ≡ 0)
    × (0 < b.size)
    × (b.at + b.size ≤ top)
    × (b.at + b.size < hi)
    × Packed lo hi b.at bs

Packed-mono :
    (lo hi : ℕ) {a b : ℕ} (bs : List Block) → a ≤ b → Packed lo hi a bs → Packed lo hi b bs
Packed-mono lo hi [] h p = omega arith
Packed-mono lo hi (x ∷ bs) h (al, po, en, lim, p) = (al, po, omega arith, lim, p)

-- The bytes that requests can take, each rounded up.
abbrev pub demand : List ℕ → ℕ
demand [] = 0
demand (n ∷ ns) = n + 15 + demand ns

-- One request: a block at the old top, or none and a top past the end, or nothing for size 0.
data Answer (n : ℕ) (k : Kernel) : Kernel × ℕ → Type 0 where
  block :
      {t : Kernel}
      → 0 < n
      → t.heap_start ≡ k.heap_start
      → t.heap_end ≡ k.heap_end
      → t.heap_current % 16 ≡ 0
      → k.heap_current + n ≤ t.heap_current
      → t.heap_current ≤ k.heap_current + n + 15
      → t.heap_current < k.heap_end
      → Answer n k (t, k.heap_current)
  refused :
      {t : Kernel}
      → t.heap_start ≡ k.heap_start
      → t.heap_end ≡ k.heap_end
      → t.heap_current % 16 ≡ 0
      → k.heap_current ≤ t.heap_current
      → t.heap_current ≤ k.heap_current + n + 15
      → (n ≡ 0) ⊎ (k.heap_end ≤ t.heap_current)
      → Answer n k (t, 0)

kmalloc-Answer :
    (n : ℕ) (k : Kernel) → IsHeap k → k.heap_current + n + 15 < 2 ^ 64 → Answer n k (kmalloc n k)
unfolding kmalloc
kmalloc-Answer n k h l = elim (Bool-cases (n == 0)) [
  | inl z ↦ rw z (refused refl refl h.aligned (omega arith) (omega arith) (inl (ground arith)))
  | inr z ↦ elim (Bool-cases (leb k.heap_end (u64 (k.heap_current + round_up n)))) [
    | inl out ↦
        rw (z, out)
          (refused refl refl (omega (arith, h.aligned)) (omega arith) (omega arith)
            (inr (ground arith)))
    | inr fits ↦
        rw (z, fits)
          (block (ground arith) refl refl (omega (arith, h.aligned)) (omega arith) (omega arith)
            (ground arith))
  ]
]

-- What one request leaves.
record Next (n : ℕ) (k t : Kernel) (lo hi : ℕ) (cs : List Block) : Type 0 where
  heap : IsHeap t
  packed : Packed lo hi t.heap_current cs
  same_start : t.heap_start ≡ lo
  same_end : t.heap_end ≡ hi
  bound : t.heap_current ≤ k.heap_current + n + 15

next :
    (n : ℕ) (bs : List Block) (k t : Kernel) (ptr lo hi : ℕ)
    → IsHeap k
    → k.heap_start ≡ lo
    → k.heap_end ≡ hi
    → Packed lo hi k.heap_current bs
    → Answer n k (t, ptr)
    → Next n k t lo hi (with_block n ptr bs)
next n bs k t ptr lo hi h el eh p (block size s e al from to fit) =
    let some_ptr : (k.heap_current == 0) ≡ false = ground (arith, h.started, h.positive) in
    rw some_ptr (record {
      heap = record {
        started = omega (arith, h.started);
        aligned = al;
        positive = omega (arith, h.positive);
        limit = omega (arith, h.limit);
      };
      packed = (h.aligned, size, from, omega arith, p);
      same_start = s ∙ el;
      same_end = e ∙ eh;
      bound = to;
    })
next n bs k t ptr lo hi h el eh p (refused s e al from to why) = record {
  heap = record {
    started = omega (arith, h.started);
    aligned = al;
    positive = omega (arith, h.positive);
    limit = omega (arith, h.limit);
  };
  packed = Packed-mono lo hi bs from p;
  same_start = s ∙ el;
  same_end = e ∙ eh;
  bound = to;
}

Packed-run_from :
    (ns : List ℕ) (bs : List Block) (k : Kernel) (lo hi : ℕ)
    → IsHeap k
    → k.heap_start ≡ lo
    → k.heap_end ≡ hi
    → Packed lo hi k.heap_current bs
    → k.heap_current + demand ns < 2 ^ 64
    → Packed lo hi (run ns bs k).0.heap_current (run ns bs k).1
unfolding run
Packed-run_from [] bs k lo hi h el eh p l = p
Packed-run_from (n ∷ ns) bs k lo hi h el eh p l =
    let (t, ptr) = kmalloc n k in
    let x : Next n k t lo hi (with_block n ptr bs) =
      next n bs k t ptr lo hi h el eh p (kmalloc-Answer n k h (omega arith)) in
    Packed-run_from ns (with_block n ptr bs) t lo hi x.heap x.same_start x.same_end x.packed
      (omega (arith, x.bound))

-- Whatever is requested in whatever order, of less than 2 ^ 64 bytes in all with each request
-- rounded up, the blocks that are handed out are aligned, lie inside the heap and do not overlap.
pub Packed-run :
    (ns : List ℕ) (k : Kernel)
    → IsHeap k
    → k.heap_current + demand ns < 2 ^ 64
    → Packed k.heap_start k.heap_end (run ns [] k).0.heap_current (run ns [] k).1
Packed-run ns k h l = Packed-run_from ns [] k k.heap_start k.heap_end h refl refl h.started l

abbrev pub AreSizes : List ℕ → Type 0
AreSizes [] = Unit
AreSizes (n ∷ ns) = (0 < n) × AreSizes ns

kmalloc-serves :
    (n : ℕ) (k : Kernel)
    → IsHeap k
    → 0 < n
    → k.heap_current + n + 15 < k.heap_end
    → kmalloc n k ≡ (record k { heap_current = k.heap_current + round_up n }, k.heap_current)
unfolding kmalloc
kmalloc-serves n k h size l =
    let some_size : (n == 0) ≡ false = ground arith in
    let no_wrap : u64 (k.heap_current + round_up n) ≡ k.heap_current + round_up n =
      omega (arith, h.limit) in
    let fits : leb k.heap_end (k.heap_current + round_up n) ≡ false = ground (arith, h.limit) in
    rw (some_size, no_wrap, fits) refl

-- Requests of some bytes each, for which the heap has room with each rounded up, all succeed.
pub length-run :
    (ns : List ℕ) (bs : List Block) (k : Kernel)
    → IsHeap k
    → AreSizes ns
    → k.heap_current + demand ns < k.heap_end
    → length (run ns bs k).1 ≡ length ns + length bs
unfolding run
length-run [] bs k h a l = omega arith
length-run (n ∷ ns) bs k h (size, a) l =
    let t : Kernel = record k { heap_current = k.heap_current + round_up n } in
    let some_ptr : (k.heap_current == 0) ≡ false = ground (arith, h.started, h.positive) in
    let t_heap : IsHeap t = record {
      started = omega (arith, h.started);
      aligned = omega (arith, h.aligned);
      positive = h.positive;
      limit = h.limit;
    } in
    let after : Kernel × ℕ → List Block = λ r. (run ns (with_block n r.1 bs) r.0).1 in
    let served : with_block n k.heap_current bs ≡ record { at = k.heap_current; size = n } ∷ bs =
      rw some_ptr refl in
    let first : length (after (kmalloc n k)) ≡ length (after (t, k.heap_current)) =
      ap (λ (r : Kernel × ℕ). length (after r)) (kmalloc-serves n k h size (omega arith)) in
    let rest : length (after (t, k.heap_current)) ≡ length ns + suc (length bs) =
      ap (λ (b : List Block). length (run ns b t).1) served
      ∙ length-run ns (record { at = k.heap_current; size = n } ∷ bs) t t_heap a (omega arith) in
    first ∙ rest ∙ omega arith
