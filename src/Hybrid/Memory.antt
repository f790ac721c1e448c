-- ===== src/Hybrid/Memory.antt =====
-- The memory phase of the `kernel_main` of hybrid/boot/init.c, and how the whole function ends.
use zig_boot.Prelude.{
  ℕ, ◌+◌, ◌*◌, ◌≤◌, ◌≡◌, ◌∙◌, refl, sym, ap, subst, inr, arith, Array, IsBytes, read64, write64,
  bit_or, returns,
}
use zig_boot.Memory.Words.{write64-IsBytes, write64-other}
use zig_boot.Console.{Console}
use zig_boot.Kernel.{Kernel}
use zig_boot.Machine.{Machine}
use zig_boot.Multiboot.Walk.{parse_multiboot_mmap-Parsed}
use zig_boot.Heap.{heap_init}
use zig_boot.Heap.Alloc.{IsHeap}
use zig_boot.Heap.Start.{heap_init-IsHeap}
use zig_boot.Vmm.{Mmu, frame, vmm_init}
use zig_boot.Vmm.Init.{next_cr3, vmm_init-kernel, vmm_init-read64}
use zig_boot.Boot.{and_then, start_console, on_kernel}
use zig_boot.Boot.Start.{IsTotalled, Parsed-returns, Ready-after, IsReady, IsBootable}
use zig_boot.Boot.Finish.{elsewhere-IsReady}
use zig_boot.Hybrid.Start.{boot_idt, boot_managers, prepare_memory}

-- What the memory phase leaves, with the last entry of the table at `p`.
pub record IsPrepared (stop p : ℕ) (k t : Kernel) : Type 0 where
  pub ready : IsReady stop k t
  pub heap : IsHeap t
  pub empty : t.heap_current ≡ t.heap_start
  pub past_bitmap : t.pmm_bitmap + t.bitmap_size ≤ t.heap_start
  pub recursive : read64 t.mem (p + 8 * 511) ≡ p + 3

heap-IsPrepared :
    (stop p : ℕ) (k t : Kernel) (c : Console) (w : Array)
    → IsReady stop k t
    → p + 4096 ≤ t.pmm_bitmap
    → IsBytes w
    → ((a : ℕ) → t.pmm_bitmap ≤ a → w a ≡ t.mem a)
    → read64 w (p + 8 * 511) ≡ p + 3
    → IsPrepared stop p k (heap_init (record t { console = c; mem = w }))
unfolding heap_init
heap-IsPrepared stop p k t c w r below bytes same entry =
    let k1 = record t { console = c; mem = w } in
    let (heap, past, near, aligned, empty, end) = heap_init-IsHeap k1 (omega arith) r.low in
    record {
      ready = elsewhere-IsReady stop k t (heap_init k1) r bytes (λ a lo hi. same a lo) refl;
      heap = heap;
      empty = empty;
      past_bitmap = past;
      recursive = entry;
    }

vmm-IsPrepared :
    (stop : ℕ) (mmu : Mmu) (k : Kernel) (m : Machine)
    → IsReady stop k m.kernel
    → frame (next_cr3 m) + 4096 ≤ k.kernel_end
    → IsPrepared stop (frame (next_cr3 m)) k (heap_init (vmm_init mmu m).kernel)
vmm-IsPrepared stop mmu k m r table =
    let p = frame (next_cr3 m) in
    let t = vmm_init mmu m in
    let w = write64 m.kernel.mem (p + 8 * 511) (bit_or p 3) in
    let kernel = vmm_init-kernel mmu m in
    let (entry, rest, log, top) = vmm_init-read64 mmu m in
    let written : t.kernel.mem ≡ w = ap (λ (x : Kernel). x.mem) kernel in
    subst (λ x. IsPrepared stop p k (heap_init x)) (sym kernel)
      (heap-IsPrepared stop p k m.kernel t.kernel.console w r (omega (arith, r.past_kernel))
        (write64-IsBytes m.kernel.mem (p + 8 * 511) (bit_or p 3) r.well_formed.bytes)
        (λ a lo.
          write64-other m.kernel.mem (p + 8 * 511) (bit_or p 3) a
            (inr (omega (arith, r.past_kernel))))
        (subst (λ x. read64 x (p + 8 * 511) ≡ p + 3) written entry))

managers-IsPrepared :
    (fuel info stop : ℕ) (mmu : Mmu) (k : Kernel) (m : Machine)
    → IsBootable fuel info stop k
    → IsTotalled k m.kernel
    → frame (next_cr3 m) + 4096 ≤ k.kernel_end
    → (t : Machine) × (boot_managers mmu info m ≡ returns t)
      × IsPrepared stop (frame (next_cr3 m)) k t.kernel
unfolding boot_managers boot_idt
managers-IsPrepared fuel info stop mmu k m b h table =
    let t = boot_idt m in
    let same : IsTotalled k t.kernel = record {
      same = ap (λ (x : Kernel). record x { console = t.kernel.console }) h.same;
    } in
    let (k1, e, r) = Ready-after fuel info stop k t.kernel b same in
    let last = record t { kernel = k1 } in
    (
      on_kernel heap_init (vmm_init mmu last),
      ap
          (λ o.
            and_then o
              (λ x. returns (on_kernel heap_init (vmm_init mmu (record t { kernel = x })))))
          e,
      vmm-IsPrepared stop mmu k last r table,
    )

-- The memory phase returns, as that of c/kernel/minimal_step9.c does, with an empty heap.
pub prepare_memory-IsPrepared :
    (fuel info stop : ℕ) (mmu : Mmu) (m : Machine)
    → IsBootable fuel info stop m.kernel
    → frame (next_cr3 m) + 4096 ≤ m.kernel.kernel_end
    → (t : Machine) × (prepare_memory fuel mmu info m ≡ returns t)
      × IsPrepared stop (frame (next_cr3 m)) m.kernel t.kernel
unfolding prepare_memory start_console
prepare_memory-IsPrepared fuel info stop mmu m b table =
    let m1 = start_console info m in
    let parsed = parse_multiboot_mmap-Parsed fuel info stop m1.kernel b.info_lem.tags b.enough in
    let (k, e, totals) =
      Parsed-returns stop m1.kernel _ parsed b.info_lem.ram b.info_lem.map.sized in
    let same : IsTotalled m.kernel k = record {
      same = ap (λ (x : Kernel). record x { console = k.console }) totals.same;
    } in
    let (t, f, booted) =
      managers-IsPrepared fuel info stop mmu m.kernel (record m1 { kernel = k }) b same table in
    (t, ap (λ o. and_then o (λ x. boot_managers mmu info (record m1 { kernel = x }))) e ∙ f, booted)
