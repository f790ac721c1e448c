-- ===== src/Boot/Finish.antt =====
-- The end of the memory phase: what the recursive entry, the heap and its test leave of the PMM.
use zig_boot.Prelude.{
  ℕ, ◌+◌, ◌*◌, ◌/◌, ◌%◌, ◌≤◌, ◌<◌, ◌≡◌, ◌∙◌, refl, sym, ap, subst, inl, inr, arith, Array, IsBytes,
  read64, write64, bit_or, returns, map_outcome, test_bit,
}
use zig_boot.Memory.{read64_ext}
use zig_boot.Memory.Words.{write64-IsBytes, write64-other}
use zig_boot.Console.{Console}
use zig_boot.Kernel.{Kernel}
use zig_boot.Machine.{Machine}
use zig_boot.Pmm.{pmm_is_page_used}
use zig_boot.Pmm.Count.{count_ext}
use zig_boot.Pmm.Bitmap.{used, IsWellFormed}
use zig_boot.Heap.{heap_init}
use zig_boot.Heap.Alloc.{IsHeap}
use zig_boot.Heap.Start.{heap_init-IsHeap}
use zig_boot.Heap.Trial.{test_heap_allocator}
use zig_boot.Console.Text.{says}
use zig_boot.Heap.Trial.Passed.{
  passed_lines, after, trial_memory, heap_passes, trial_memory-other, trial_memory-IsBytes,
}
use zig_boot.Vmm.{Mmu, frame, vmm_init}
use zig_boot.Vmm.Init.{next_cr3, vmm_init-kernel, vmm_init-read64}
use zig_boot.Boot.{boot_heap, boot_memory, start_console}
use zig_boot.Boot.Start.{IsReady, IsBootable, boot_pmm-IsReady}

-- Changes to memory that spare the bitmap, and to the console and the heap, leave the PMM ready.
pub elsewhere-IsReady :
    (stop : ℕ) (k t u : Kernel)
    → IsReady stop k t
    → IsBytes u.mem
    → ((a : ℕ) → t.pmm_bitmap ≤ a → a < t.pmm_bitmap + t.bitmap_size → u.mem a ≡ t.mem a)
    → u ≡ record t {
      console = u.console;
      mem = u.mem;
      heap_start = u.heap_start;
      heap_current = u.heap_current;
      heap_end = u.heap_end;
    }
    → IsReady stop k u
unfolding pmm_is_page_used
elsewhere-IsReady stop k t u r b same e = subst (IsReady stop k) (sym e) (record {
  well_formed = record {
    bytes = b;
    pages_fit = w.pages_fit;
    bitmap_fits = w.bitmap_fits;
    counted = w.counted ∙ sym (count_ext t.total_pages (used t) _ bit);
  };
  past_kernel = r.past_kernel;
  low = r.low;
  pages = λ q lt. bit q lt ∙ r.pages q lt;
})
  where
    w : IsWellFormed t
    w = r.well_formed

    bit :
        (q : ℕ)
        → q < t.total_pages
        → test_bit (u.mem (t.pmm_bitmap + q / 8)) (q % 8)
          ≡ test_bit (t.mem (t.pmm_bitmap + q / 8)) (q % 8)
    bit q lt =
        ap (λ x. test_bit x (q % 8))
          (same (t.pmm_bitmap + q / 8) (omega arith) (omega (arith, w.bitmap_fits)))

-- What the memory phase leaves, with the last entry of the table at `p`.
pub record IsBooted (stop p : ℕ) (k t : Kernel) : Type 0 where
  pub ready : IsReady stop k t
  pub heap : IsHeap t
  pub reserved : t.heap_current ≡ t.heap_start + 448
  pub past_bitmap : t.pmm_bitmap + t.bitmap_size ≤ t.heap_start
  pub tested : (before : Console) × (t.console ≡ says passed_lines before)
  pub recursive : read64 t.mem (p + 8 * 511) ≡ p + 3

-- The heap and its test on a memory `w` that differs from the PMM's below the bitmap alone.
heap-IsBooted :
    (stop p : ℕ) (k t : Kernel) (c : Console) (w : Array)
    → IsReady stop k t
    → p + 4096 ≤ t.pmm_bitmap
    → IsBytes w
    → ((a : ℕ) → t.pmm_bitmap ≤ a → w a ≡ t.mem a)
    → read64 w (p + 8 * 511) ≡ p + 3
    → IsBooted stop p k (test_heap_allocator (heap_init (record t { console = c; mem = w })))
unfolding heap_init
heap-IsBooted stop p k t c w r below bytes same entry =
    let k1 = record t { console = c; mem = w } in
    let k2 = heap_init k1 in
    let start = k2.heap_current in
    let (heap, past, near, aligned, empty, end) = heap_init-IsHeap k1 (omega arith) r.low in
    let frame_of = trial_memory-other start w in
    rw (heap_passes k2 (omega arith, omega arith, heap.limit, omega arith)) (record {
      ready =
          elsewhere-IsReady stop k t (after 448 (trial_memory start w) passed_lines k2) r
            (trial_memory-IsBytes start w bytes)
            (λ a lo hi. frame_of a (inl (omega arith)) ∙ same a lo) refl;
      heap = record {
        started = omega arith;
        aligned = omega arith;
        positive = heap.positive;
        limit = heap.limit;
      };
      reserved = refl;
      past_bitmap = past;
      tested = (k2.console, refl);
      recursive =
          read64_ext w (trial_memory start w) (p + 8 * 511)
            (λ i lo hi. frame_of i (inl (omega arith)))
          ∙ entry;
    })

boot_heap-IsBooted :
    (stop : ℕ) (mmu : Mmu) (k : Kernel) (m : Machine)
    → IsReady stop k m.kernel
    → frame (next_cr3 m) + 4096 ≤ k.kernel_end
    → IsBooted stop (frame (next_cr3 m)) k (boot_heap mmu m).kernel
unfolding boot_heap
boot_heap-IsBooted stop mmu k m r table =
    let p = frame (next_cr3 m) in
    let t = vmm_init mmu m in
    let w = write64 m.kernel.mem (p + 8 * 511) (bit_or p 3) in
    let kernel = vmm_init-kernel mmu m in
    let (entry, rest, log, top) = vmm_init-read64 mmu m in
    let written : t.kernel.mem ≡ w = ap (λ (x : Kernel). x.mem) kernel in
    subst (λ x. IsBooted stop p k (test_heap_allocator (heap_init x))) (sym kernel)
      (heap-IsBooted stop p k m.kernel t.kernel.console w r (omega (arith, r.past_kernel))
        (write64-IsBytes m.kernel.mem (p + 8 * 511) (bit_or p 3) r.well_formed.bytes)
        (λ a lo.
          write64-other m.kernel.mem (p + 8 * 511) (bit_or p 3) a
            (inr (omega (arith, r.past_kernel))))
        (subst (λ x. read64 x (p + 8 * 511) ≡ p + 3) written entry))

-- The memory phase of `kernel_main` returns, when the tables that `cr3` names lie below the end of
-- the kernel: the PMM is well-formed and has exactly the free pages of the memory map, the recursive
-- entry is in place, and the heap is past the bitmap and has passed its test.
pub boot_memory-IsBooted :
    (fuel info stop : ℕ) (mmu : Mmu) (m : Machine)
    → IsBootable fuel info stop m.kernel
    → frame (next_cr3 m) + 4096 ≤ m.kernel.kernel_end
    → (t : Machine) × (boot_memory fuel mmu info m ≡ returns t)
      × IsBooted stop (frame (next_cr3 m)) m.kernel t.kernel
unfolding boot_memory start_console
boot_memory-IsBooted fuel info stop mmu m b table =
    let m1 = start_console info m in
    let started : IsBootable fuel info stop m1.kernel = record {
      bytes = b.bytes;
      order = b.order;
      kernel_low = b.kernel_low;
      info_low = b.info_low;
      info_lem = b.info_lem;
      enough = b.enough;
    } in
    let (k, e, r) = boot_pmm-IsReady fuel info stop m1.kernel started in
    let ready : IsReady stop m.kernel k = record {
      well_formed = r.well_formed;
      past_kernel = r.past_kernel;
      low = r.low;
      pages = r.pages;
    } in
    let m2 = record m1 { kernel = k } in
    (
      boot_heap mmu m2,
      ap (map_outcome (λ x. boot_heap mmu (record m1 { kernel = x }))) e,
      boot_heap-IsBooted stop mmu m.kernel m2 ready table,
    )
