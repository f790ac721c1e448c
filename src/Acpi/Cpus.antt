-- ===== src/Acpi/Cpus.antt =====
-- Which processors `acpi_parse_madt` finds.
use zig_boot.Prelude.{
  sym, subst, ℕ, zero, suc, ◌+◌, ◌-◌, ◌≤◌, ◌<◌, ◌≡◌, refl, ◌∙◌, ap, true, false, ◌&&◌, arith, ◌==◌,
  ltb, leb, if◌then◌else◌, Array, IsBytes, List, [], ◌∷◌, length, returns,
}
use zig_boot.Kernel.{Kernel}
use zig_boot.Acpi.{is_cpu, add_cpu, lapic_loop, acpi_parse_madt, sdt_length}

-- Entries of a positive length follow one another from an address to `stop` or past it; `ids` are
-- the identifiers of the enabled local APICs among them.
pub data Entries (m : Array) (stop : ℕ) : ℕ → List ℕ → Type 0 where
  past : {ptr : ℕ} → stop ≤ ptr → Entries m stop ptr []
  cpu :
      {ptr : ℕ} {ids : List ℕ}
      → ptr < stop
      → is_cpu m ptr ≡ true
      → 0 < m (ptr + 1)
      → Entries m stop (ptr + m (ptr + 1)) ids
      → Entries m stop ptr (m (ptr + 3) ∷ ids)
  other :
      {ptr : ℕ} {ids : List ℕ}
      → ptr < stop
      → is_cpu m ptr ≡ false
      → 0 < m (ptr + 1)
      → Entries m stop (ptr + m (ptr + 1)) ids
      → Entries m stop ptr ids

-- The entry of a list at an index, or a default.
pub entry_or : List ℕ → ℕ → ℕ → ℕ
entry_or [] i d = d
entry_or (x ∷ xs) zero d = x
entry_or (x ∷ xs) (suc i) d = entry_or xs i d

-- The array `a` with the list stored from index `c` on, as far as there is room for 16.
abbrev pub stored : List ℕ → ℕ → Array → Array
stored ids c a i = if leb c i && ltb i 16 then entry_or ids (i - c) (a i) else a i

entry_or_later :
    (x : ℕ) (xs : List ℕ) (i d : ℕ) → 0 < i → entry_or (x ∷ xs) i d ≡ entry_or xs (i - 1) d
unfolding entry_or
entry_or_later x xs zero d h = absurd (omega arith)
entry_or_later x xs (suc i) d h = ap (λ j. entry_or xs j d) (omega arith)

entry_or_first : (x : ℕ) (xs : List ℕ) (i d : ℕ) → i ≡ 0 → entry_or (x ∷ xs) i d ≡ x
unfolding entry_or
entry_or_first x xs i d e = rw e refl

stored-cons :
    (x c : ℕ) (ids : List ℕ) (a b : Array)
    → ((i : ℕ) → b i ≡ (if ltb c 16 && (c == i) then x else a i))
    → (i : ℕ) → stored ids (c + 1) b i ≡ stored (x ∷ ids) c a i
stored-cons x c ids a b h i =
    let next : i - (c + 1) ≡ i - c - 1 = omega arith in
    rw next
      (ground (arith, h i, entry_or_later x ids (i - c) (a i), entry_or_first x ids (i - c) (a i)))

-- What the loop returns: the number of processors, their identifiers in the table, and no change but
-- in the console.
pub record Counted (ids : List ℕ) (c : ℕ) (k : Kernel) (r : Kernel × ℕ) : Type 0 where
  pub rest : r.0 ≡ record k { console = r.0.console; cpu_apic_ids = r.0.cpu_apic_ids }
  pub total : r.1 ≡ c + length ids
  pub table : (i : ℕ) → r.0.cpu_apic_ids i ≡ stored ids c k.cpu_apic_ids i

add_cpu-rest :
    (id c : ℕ) (k : Kernel)
    → add_cpu id c k ≡ record k {
      console = (add_cpu id c k).console;
      cpu_apic_ids = (add_cpu id c k).cpu_apic_ids;
    }
unfolding add_cpu
add_cpu-rest id c k = ground arith

add_cpu-table :
    (id c : ℕ) (k : Kernel) (i : ℕ)
    → (add_cpu id c k).cpu_apic_ids i ≡ (if ltb c 16 && (c == i) then id else k.cpu_apic_ids i)
unfolding add_cpu
add_cpu-table id c k i = ground arith

-- The rest of the loop counts on from one more processor.
Counted-cons :
    (id c : ℕ) (ids : List ℕ) (k : Kernel) (r : Kernel × ℕ)
    → Counted ids (c + 1) (add_cpu id c k) r
    → Counted (id ∷ ids) c k r
Counted-cons id c ids k r h = record {
  rest = ground (arith, h.rest, add_cpu-rest id c k);
  total = omega (arith, h.total);
  table = λ i.
      h.table i
      ∙ stored-cons id c ids k.cpu_apic_ids (add_cpu id c k).cpu_apic_ids (add_cpu-table id c k) i;
}

-- One round of the loop.
module _ (fuel ptr stop c : ℕ) (k : Kernel) where
  loop_cpu :
      ptr < stop
      → is_cpu k.mem ptr ≡ true
      → lapic_loop (suc fuel) ptr stop c k
        ≡ lapic_loop fuel (ptr + k.mem (ptr + 1)) stop (c + 1) (add_cpu (k.mem (ptr + 3)) c k)
  unfolding lapic_loop
  loop_cpu h hit = let more : ltb ptr stop ≡ true = ground arith in rw (more, hit) refl

  loop_other :
      ptr < stop
      → is_cpu k.mem ptr ≡ false
      → lapic_loop (suc fuel) ptr stop c k ≡ lapic_loop fuel (ptr + k.mem (ptr + 1)) stop c k
  unfolding lapic_loop
  loop_other h miss = let more : ltb ptr stop ≡ true = ground arith in rw (more, miss) refl

  loop_past : stop ≤ ptr → lapic_loop (suc fuel) ptr stop c k ≡ returns (k, c)
  unfolding lapic_loop
  loop_past h = let done : ltb ptr stop ≡ false = ground arith in rw done refl

lapic_loop-Counted :
    (stop fuel : ℕ) {ptr : ℕ} {ids : List ℕ} (c : ℕ) (k : Kernel)
    → Entries k.mem stop ptr ids
    → stop ≤ ptr + fuel
    → (r : Kernel × ℕ) × (lapic_loop (suc fuel) ptr stop c k ≡ returns r) × Counted ids c k r
unfolding entry_or
lapic_loop-Counted stop fuel {ptr} c k (past h) l = (
  (k, c),
  loop_past fuel ptr stop c k h,
  record { rest = refl; total = omega arith; table = λ i. ground arith },
)
lapic_loop-Counted stop zero c k (cpu h hit size es) l = absurd (omega arith)
lapic_loop-Counted stop zero c k (other h miss size es) l = absurd (omega arith)
lapic_loop-Counted stop (suc fuel) {ptr} c k (cpu {ids = ids} h hit size es) l =
    let id = k.mem (ptr + 3) in
    let memory : k.mem ≡ (add_cpu id c k).mem =
      sym (ap (λ (x : Kernel). x.mem) (add_cpu-rest id c k)) in
    let (r, same, counted) =
      lapic_loop-Counted stop fuel (c + 1) (add_cpu id c k)
        (subst (λ m. Entries m stop (ptr + k.mem (ptr + 1)) ids) memory es) (omega arith) in
    (r, loop_cpu (suc fuel) ptr stop c k h hit ∙ same, Counted-cons id c ids k r counted)
lapic_loop-Counted stop (suc fuel) {ptr} c k (other h miss size es) l =
    let (r, same, counted) = lapic_loop-Counted stop fuel c k es (omega arith) in
    (r, loop_other (suc fuel) ptr stop c k h miss ∙ same, counted)

pub acpi_parse_madt-Counted :
    (fuel madt : ℕ) (ids : List ℕ) (k : Kernel)
    → Entries k.mem (madt + sdt_length k.mem madt) (madt + 44) ids
    → sdt_length k.mem madt ≤ 44 + fuel
    → (r : Kernel × ℕ) × (acpi_parse_madt (suc fuel) madt k ≡ returns r) × Counted ids 0 k r
unfolding acpi_parse_madt
acpi_parse_madt-Counted fuel madt ids k es l = lapic_loop-Counted _ fuel 0 k es (omega arith)

-- The identifiers are bytes of memory.
entry_or-byte :
    {m : Array} {stop ptr : ℕ} {ids : List ℕ} (i d : ℕ)
    → IsBytes m
    → d < 256
    → Entries m stop ptr ids
    → entry_or ids i d < 256
unfolding entry_or
entry_or-byte i d b lt (past h) = lt
entry_or-byte {ptr = ptr} zero d b lt (cpu h hit size es) = b (ptr + 3)
entry_or-byte (suc i) d b lt (cpu h hit size es) = entry_or-byte i d b lt es
entry_or-byte i d b lt (other h miss size es) = entry_or-byte i d b lt es

pub stored-IsBytes :
    {m a : Array} {stop ptr : ℕ} {ids : List ℕ}
    → IsBytes m
    → IsBytes a
    → Entries m stop ptr ids
    → IsBytes (stored ids 0 a)
stored-IsBytes {a = a} b c es i = ground (arith, c i, entry_or-byte i (a i) b (c i) es)
