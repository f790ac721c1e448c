-- ===== src/Multiboot/Entries.antt =====
-- What `parse_multiboot_mmap` computes from the entries of the memory map.
use native.Mathlib.Decide.{ℕ_discrete}
use zig_boot.Prelude.{
  sum_to, sum_to-add_one, Bool, subst, sym, ℕ, ◌+◌, ◌≤◌, ◌<◌, ◌≡◌, refl, ◌≢◌, ◌∙◌, ap, ◌⊎◌, inl,
  inr, false, arith, ◌==◌, ltb, ◌&&◌, if◌then◌else◌, u64, for_range, for_range_inv, Bool-cases,
  Array, returns,
}
use zig_boot.Kernel.{Kernel}
use zig_boot.Multiboot.{
  Entry, read_entry, entry_at, entry_size, num_entries, count_entry, show_entry, parse_entry,
  parse_map, announce_map, show_totals,
}

abbrev pub available_len : Entry → ℕ
available_len e = if e.kind == 1 then e.len else 0

-- An entry whose end counts for `total_memory`.
abbrev pub IsLowRam : Entry → Type 0
IsLowRam e = (e.kind ≡ 1) × (e.addr < 0x100000000)

abbrev pub end_of : Entry → ℕ
end_of e = u64 (e.addr + e.len)

-- What the first `n` entries `e 0`, `e 1`, … make of `k`: `usable_memory` grows by the lengths of
-- the available ones, and `total_memory` to the highest end of those that start below 4 GB.
pub record Totals (e : ℕ → Entry) (k t : Kernel) (n : ℕ) : Type 0 where
  pub rest : t ≡ record k {
    console = t.console;
    usable_memory = t.usable_memory;
    total_memory = t.total_memory;
  }
  pub usable : u64 t.usable_memory ≡ u64 (k.usable_memory + sum_to n (λ i. available_len (e i)))
  pub grows : k.total_memory ≤ t.total_memory
  pub above : (i : ℕ) → i < n → IsLowRam (e i) → end_of (e i) ≤ t.total_memory
  pub attained :
      (t.total_memory ≡ k.total_memory)
      ⊎ ((i : ℕ) × (i < n) × IsLowRam (e i) × (t.total_memory ≡ end_of (e i)))

-- The three things that an entry changes: the console and the two totals.
module _ (e : Entry) (k : Kernel) where
  count_entry-rest : count_entry e k ≡ record k {
    console = (count_entry e k).console;
    usable_memory = (count_entry e k).usable_memory;
    total_memory = (count_entry e k).total_memory;
  }
  unfolding count_entry
  count_entry-rest = ground arith

  count_entry-usable :
      (count_entry e k).usable_memory
      ≡ (if e.kind == 1 then u64 (k.usable_memory + e.len) else k.usable_memory)
  unfolding count_entry
  count_entry-usable = ground arith

  count_entry-total : (count_entry e k).total_memory ≡ (
      if e.kind == 1 && ltb e.addr 0x100000000 && ltb k.total_memory (end_of e)
      then end_of e
      else k.total_memory)
  unfolding count_entry
  count_entry-total = ground arith

Totals-zero : (e : ℕ → Entry) (k t : Kernel) → t ≡ record k { console = t.console } → Totals e k t 0
unfolding sum_to
Totals-zero e k t same = record {
  rest = ground arith;
  usable = ground arith;
  grows = ground arith;
  above = λ i h. elim h [ ];
  attained = inl (ap (λ x. x.total_memory) same);
}

-- One more entry.
Totals-suc :
    (e : ℕ → Entry) {k t : Kernel} {n : ℕ} (u : Kernel)
    → u ≡ record t { console = u.console }
    → Totals e k t n
    → Totals e k (count_entry (e n) u) (n + 1)
Totals-suc e {k} {t} {n} u same h = record {
  rest = ground (arith, h.rest, count_entry-rest (e n) u);
  usable =
      ground
        (arith, count_entry-usable (e n) u, h.usable, sum_to-add_one n (λ i. available_len (e i)));
  grows = ground (arith, count_entry-total (e n) u, h.grows);
  above = λ i l r. elim (ℕ_discrete i n) [
    | yes last ↦
        let r' : IsLowRam (e n) = rw (← last) r in
        rw last (ground (arith, count_entry-total (e n) u))
    | no below ↦ ground (arith, count_entry-total (e n) u, h.above i (omega arith) r)
  ];
  attained = elim (Bool-cases taken) [
    | inl now ↦ inr (n, omega arith, ground arith, ground (arith, count_entry-total (e n) u))
    | inr not_now ↦
        let kept : (count_entry (e n) u).total_memory ≡ t.total_memory =
          ground (arith, count_entry-total (e n) u) in
        elim h.attained [
          | inl old ↦ inl (kept ∙ old)
          | inr (i, l, r, q) ↦ inr (i, omega arith, r, kept ∙ q)
        ]
  ];
}
  where
    taken : Bool
    taken = (e n).kind == 1 && ltb (e n).addr 0x100000000 && ltb u.total_memory (end_of (e n))

show_entry-rest :
    (e : Entry) (k : Kernel) → show_entry e k ≡ record k { console = (show_entry e k).console }
unfolding show_entry
show_entry-rest e k = refl

-- The entries of the map at `tag`.
abbrev pub entries : Array → ℕ → ℕ → Entry
entries m tag i = read_entry m (entry_at m tag i)

entry_round :
    (tag i : ℕ) (k t : Kernel)
    → Totals (entries k.mem tag) k t i
    → Totals (entries k.mem tag) k (parse_entry tag i t) (i + 1)
unfolding parse_entry
entry_round tag i k t h =
    let memory : t.mem ≡ k.mem = ap (λ x. x.mem) h.rest in
    subst (λ e. Totals (entries k.mem tag) k (count_entry e (show_entry e t)) (i + 1))
      (ap (λ m. entries m tag i) (sym memory))
      (Totals-suc (entries k.mem tag) _ (show_entry-rest (entries k.mem tag i) t) h)

announce_map-rest :
    (tag : ℕ) (k : Kernel)
    → announce_map tag k ≡ record k { console = (announce_map tag k).console }
unfolding announce_map
announce_map-rest tag k = refl

entries_loop :
    (tag : ℕ) (k u : Kernel)
    → u ≡ record k { console = u.console }
    → (n : ℕ) → Totals (entries k.mem tag) k (for_range n 0 (parse_entry tag) u) n
entries_loop tag k u same n =
    for_range_inv (λ i t. Totals (entries k.mem tag) k t i) (parse_entry tag) n 0 n u (omega arith)
      (λ i t lo hi h. entry_round tag i k t h) (Totals-zero (entries k.mem tag) k u same)

show_totals-Totals :
    {e : ℕ → Entry} {k t : Kernel} {n : ℕ} → Totals e k t n → Totals e k (show_totals t) n
unfolding show_totals
show_totals-Totals h = record {
  rest = ground (arith, h.rest);
  usable = h.usable;
  grows = h.grows;
  above = h.above;
  attained = h.attained;
}

-- With an entry size that is not zero the map is read to the end.
pub parse_map-Totals :
    (tag : ℕ) (k : Kernel)
    → entry_size k.mem tag ≢ 0
    → (t : Kernel) × (parse_map tag k ≡ returns t)
      × Totals (entries k.mem tag) k t (num_entries k.mem tag)
unfolding parse_map
parse_map-Totals tag k h =
    let e : (entry_size k.mem tag == 0) ≡ false = ground arith in
    (
      _,
      rw e,
      show_totals-Totals (entries_loop tag k _ (announce_map-rest tag k) (num_entries k.mem tag)),
    )
