-- ===== src/Smp/Layout.antt =====
-- What a started processor finds in memory: the code of the trampoline and the words at its end.
use zig_boot.Prelude.{
  ℕ, ◌+◌, ◌-◌, ◌*◌, ◌≡◌, ◌<◌, ◌≤◌, ◌⊎◌, ◌∙◌, ◌&&◌, inl, inr, arith, leb, ltb, if◌then◌else◌, Array,
  ◌∷◌, read64, write64, u64,
}
use zig_boot.Memory.{memcpy, memcpy-cell}
use zig_boot.Memory.Words.{write64-other, read64-write64, read64-write64-other}
use zig_boot.Device as Device
use zig_boot.Device.{read_cr3}
use zig_boot.Machine.{Machine}
use zig_boot.Smp.{trampoline, trampoline_size, ap_stack_size, setup_trampoline, patch_stack}

-- The code of the trampoline is `size` bytes long, with room for its three words, and lies clear
-- of the place it is copied to.
pub record IsTrampoline (m : Machine) (size : ℕ) : Type 0 where
  pub size_lem : trampoline_size m ≡ size
  pub room : 24 ≤ size
  pub apart :
      (trampoline + size ≤ m.symbols.trampoline_start)
      ⊎ (m.symbols.trampoline_start + size ≤ trampoline)

-- The bytes below the three words are the code, and the words are `cr3`, the stack and the entry.
pub record IsLaidOut (m : Machine) (old mem : Array) (size cr3 stack : ℕ) : Type 0 where
  pub code : (i : ℕ) → i < size - 24 → mem (trampoline + i) ≡ old (m.symbols.trampoline_start + i)
  pub page_tables : read64 mem (trampoline + size - 24) ≡ u64 cr3
  pub stack_pointer : read64 mem (trampoline + size - 16) ≡ u64 stack
  pub entry : read64 mem (trampoline + size - 8) ≡ u64 m.symbols.ap_entry_address

three_words : Array → ℕ → ℕ → ℕ → ℕ → Array
three_words mem size cr3 stack entry =
    write64 (write64 (write64 mem (trampoline + size - 24) cr3) (trampoline + size - 16) stack)
      (trampoline + size - 8) entry

three_words-IsLaidOut :
    (m : Machine) (mem : Array) (size cr3 stack : ℕ)
    → 24 ≤ size
    → ((i : ℕ) → i < size → mem (trampoline + i) ≡ m.kernel.mem (m.symbols.trampoline_start + i))
    → IsLaidOut m m.kernel.mem
        (three_words mem size cr3 stack m.symbols.ap_entry_address)
        size
        cr3
        stack
unfolding three_words
three_words-IsLaidOut m mem size cr3 stack room copied =
    let a = trampoline + size - 24 in
    let b = trampoline + size - 16 in
    let c = trampoline + size - 8 in
    let entry = m.symbols.ap_entry_address in
    let m1 = write64 mem a cr3 in
    let m2 = write64 m1 b stack in
    record {
      code = λ i lt.
          write64-other m2 c entry (trampoline + i) (inl (omega arith))
          ∙ write64-other m1 b stack (trampoline + i) (inl (omega arith))
          ∙ write64-other mem a cr3 (trampoline + i) (inl (omega arith))
          ∙ copied i (omega arith);
      page_tables =
          read64-write64-other m2 c entry a (inl (omega arith))
          ∙ read64-write64-other m1 b stack a (inl (omega arith))
          ∙ read64-write64 mem a cr3;
      stack_pointer =
          read64-write64-other m2 c entry b (inl (omega arith)) ∙ read64-write64 m1 b stack;
      entry = read64-write64 m2 c entry;
    }

-- After `setup_trampoline` the code is at 0x8000 and the last three words are the `cr3` that the
-- processor gave, 0 and the entry point.
pub setup_trampoline-IsLaidOut :
    (m : Machine) (size : ℕ)
    → IsTrampoline m size
    → IsLaidOut m m.kernel.mem
        (setup_trampoline m).kernel.mem
        size
        (m.device.reply (read_cr3 ∷ m.device.log))
        0
unfolding setup_trampoline Device.read Device.perform three_words
setup_trampoline-IsLaidOut m size w =
    let mem = memcpy trampoline m.symbols.trampoline_start size m.kernel.mem in
    let cr3 = m.device.reply (read_cr3 ∷ m.device.log) in
    rw w.size_lem (
      three_words-IsLaidOut m mem size cr3 0 w.room (λ i lt.
        memcpy-cell trampoline m.symbols.trampoline_start size m.kernel.mem w.apart (trampoline + i)
        ∙ inside i lt))
  where
    inside :
        (i : ℕ)
        → i < size
        → (if leb trampoline (trampoline + i) && ltb (trampoline + i) (trampoline + size)
            then m.kernel.mem (m.symbols.trampoline_start + (trampoline + i - trampoline))
            else m.kernel.mem (trampoline + i))
          ≡ m.kernel.mem (m.symbols.trampoline_start + i)
    inside i lt = let same : trampoline + i - trampoline ≡ i = omega arith in rw same (ground arith)

-- `boot_ap` leaves the layout and makes the stack pointer the top of the processor's own stack.
pub patch_stack-IsLaidOut :
    (i : ℕ) (m : Machine) (old : Array) (size cr3 stack : ℕ)
    → IsTrampoline m size
    → IsLaidOut m old m.kernel.mem size cr3 stack
    → IsLaidOut m old
        (patch_stack i m).kernel.mem
        size
        cr3
        (m.symbols.ap_stacks + (i + 1) * ap_stack_size)
unfolding patch_stack
patch_stack-IsLaidOut i m old size cr3 stack w h =
    let room : 24 ≤ size = w.room in
    let b = trampoline + size - 16 in
    let top = m.symbols.ap_stacks + i * ap_stack_size + ap_stack_size in
    let mem = m.kernel.mem in
    let top_lem : u64 top ≡ u64 (m.symbols.ap_stacks + (i + 1) * ap_stack_size) = omega arith in
    rw w.size_lem (record {
      code = λ j lt. write64-other mem b top (trampoline + j) (inl (omega arith)) ∙ h.code j lt;
      page_tables =
          read64-write64-other mem b top (trampoline + size - 24) (inl (omega arith))
          ∙ h.page_tables;
      stack_pointer = read64-write64 mem b top ∙ top_lem;
      entry = read64-write64-other mem b top (trampoline + size - 8) (inr (omega arith)) ∙ h.entry;
    })
