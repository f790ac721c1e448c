-- ===== src/Multiboot/Walk.antt =====
-- The walk over the Multiboot2 tags ends on well-formed information, and what it ends with.
use zig_boot.Prelude.{
  ℕ, zero, suc, ◌+◌, ◌*◌, ◌≤◌, ◌<◌, ◌^◌, ◌≡◌, refl, ◌≢◌, ◌⊎◌, inl, inr, arith, Array, Outcome,
  returns, divide_error,
}
use zig_boot.Kernel.{Kernel, puts}
use zig_boot.Console.{Console, text}
use zig_boot.Multiboot.{
  tag_type, tag_size, next_tag, entry_size, num_entries, parse_map, walk_tags, parse_multiboot_mmap,
}
use zig_boot.Multiboot.Entries.{entries, Totals, parse_map-Totals}
use native.Mathlib.Decide.{ℕ_discrete}

-- From a tag on, tags of a positive size follow one another up to the tag at `stop`, which is the
-- end tag or the first memory map.
pub data TagsTo (m : Array) (stop : ℕ) : ℕ → Type 0 where
  here : {tag : ℕ} → tag ≡ stop → (tag_type m tag ≡ 0) ⊎ (tag_type m tag ≡ 6) → TagsTo m stop tag
  skip :
      {tag next : ℕ}
      → tag_type m tag ≢ 0
      → tag_type m tag ≢ 6
      → 0 < tag_size m tag
      → tag_size m tag + 7 < 2 ^ 32
      → next_tag m tag ≡ next
      → TagsTo m stop next
      → TagsTo m stop tag

pub TagsTo-le : {m : Array} {stop tag : ℕ} → TagsTo m stop tag → tag ≤ stop
TagsTo-le (here e t) = omega arith
TagsTo-le (skip a b c d e r) = omega (arith, TagsTo-le r)

-- How the parsing of the tags up to `stop` ends. A divisor of zero traps.
pub data Parsed (k : Kernel) (stop : ℕ) : Outcome Kernel → Type 0 where
  no_map :
      {t : Kernel}
      → tag_type k.mem stop ≡ 0
      → t ≡ record k { console = t.console }
      → Parsed k stop (returns t)
  trap : tag_type k.mem stop ≡ 6 → entry_size k.mem stop ≡ 0 → Parsed k stop divide_error
  map :
      {t : Kernel}
      → tag_type k.mem stop ≡ 6
      → entry_size k.mem stop ≢ 0
      → Totals (entries k.mem stop) k t (num_entries k.mem stop)
      → Parsed k stop (returns t)

-- What was printed before the walk makes no difference.
Parsed-start :
    (k : Kernel) (c : Console) {stop : ℕ} {r : Outcome Kernel}
    → Parsed (record k { console = c }) stop r
    → Parsed k stop r
Parsed-start k c (no_map z h) = no_map z h
Parsed-start k c (trap z h) = trap z h
Parsed-start k c (map z h t) = map z h (record {
  rest = t.rest;
  usable = t.usable;
  grows = t.grows;
  above = t.above;
  attained = t.attained;
})

parse_map-trap :
    (stop : ℕ) (k : Kernel) → entry_size k.mem stop ≡ 0 → parse_map stop k ≡ divide_error
unfolding parse_map
parse_map-trap stop k h = ground arith

parse_map-Parsed :
    (stop : ℕ) (k : Kernel) → tag_type k.mem stop ≡ 6 → Parsed k stop (parse_map stop k)
parse_map-Parsed stop k h = elim (ℕ_discrete (entry_size k.mem stop) 0) [
  | yes z ↦ rw (parse_map-trap stop k z) (trap h z)
  | no n ↦ let (t, e, totals) = parse_map-Totals stop k n in rw e (map h n totals)
]

-- One round of the walk, by the type of the tag.
module _ (fuel tag : ℕ) (k : Kernel) where
  walk_end :
      tag_type k.mem tag ≡ 0
      → walk_tags (suc fuel) tag k
        ≡ returns (puts (text "[ERROR] Memory map not found in Multiboot2 info!\n") k)
  unfolding walk_tags
  walk_end h = ground arith

  walk_map : tag_type k.mem tag ≡ 6 → walk_tags (suc fuel) tag k ≡ parse_map tag k
  unfolding walk_tags
  walk_map h = ground arith

  walk_skip :
      tag_type k.mem tag ≢ 0
      → tag_type k.mem tag ≢ 6
      → walk_tags (suc fuel) tag k ≡ walk_tags fuel (next_tag k.mem tag) k
  unfolding walk_tags
  walk_skip a b = ground arith

walk_tags-Parsed :
    (fuel : ℕ) {stop tag : ℕ} (k : Kernel)
    → TagsTo k.mem stop tag
    → stop < tag + fuel * 8
    → Parsed k stop (walk_tags fuel tag k)
walk_tags-Parsed zero k c h = absurd (omega (arith, TagsTo-le c))
walk_tags-Parsed (suc fuel) {stop} {tag} k (here e t) h = rw e (elim t [
  | inl end ↦
      let end' : tag_type k.mem stop ≡ 0 = rw e at end in
      rw (walk_end fuel stop k end') (no_map end' refl)
  | inr ram ↦
      let ram' : tag_type k.mem stop ≡ 6 = rw e at ram in
      rw (walk_map fuel stop k ram') (parse_map-Parsed stop k ram')
])
walk_tags-Parsed (suc fuel) {stop} {tag} k (skip a b c d e r) h =
    rw (walk_skip fuel tag k a b, e) (walk_tags-Parsed fuel k r (omega arith))

-- On well-formed information the walk ends, with as much fuel as there are eight-byte steps up to
-- the tag where it stops. With the end tag there the totals are as before; with a memory map whose
-- entry size is not zero they are those of its entries; an entry size of zero traps.
pub parse_multiboot_mmap-Parsed :
    (fuel multiboot_info_addr stop : ℕ) (k : Kernel)
    → TagsTo k.mem stop (multiboot_info_addr + 8)
    → stop < multiboot_info_addr + 8 + fuel * 8
    → Parsed k stop (parse_multiboot_mmap fuel multiboot_info_addr k)
unfolding parse_multiboot_mmap
parse_multiboot_mmap-Parsed fuel multiboot_info_addr stop k tags h =
    Parsed-start k _ (walk_tags-Parsed fuel _ tags h)
