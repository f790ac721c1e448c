-- ===== src/Pmm/Setup/Regions.antt =====
-- Which pages are in use after `pmm_mark_free_regions`.
use Prim.Native.Nat.{min}
use native.Mathlib.Numerals.{add-one}
use zig_boot.Prelude.{
  ℕ, zero, suc, ◌+◌, ◌/◌, ◌≤◌, ◌<◌, ◌^◌, ◌≡◌, ◌≢◌, refl, sym, subst, ap, inl, inr, Bool, true,
  false, ◌&&◌, ◌||◌, arith, ◌==◌, ltb, leb, if◌then◌else◌, u64, sub64, Array, read32, read64,
  for_range, for_range_inv, returns, Bool-cases,
}
use zig_boot.Console.{Console}
use zig_boot.Kernel.{Kernel}
use zig_boot.Memory.{read32_ext, read64_ext}
use zig_boot.Multiboot.{Entry, tag_type, entry_size, num_entries, entry_at}
use zig_boot.Multiboot.Entries.{entries}
use zig_boot.Multiboot.Walk.{TagsTo, here, skip}
use zig_boot.Pmm.{pmm_is_page_used}
use zig_boot.Pmm.Bitmap.{used, IsWellFormed, Becomes}
use zig_boot.Pmm.Step.{Becomes-same, Becomes-ext, Becomes-trans, total-keeps}
use zig_boot.Pmm.Region.{freed_from, overlaps, pmm_mark_region_free-Becomes}
use zig_boot.Pmm.Setup.{free_entry, free_entry_at, free_walk}

-- The page after the last one that an available entry frees: its end is capped at `total_memory`.
abbrev pub capped_end : ℕ → Entry → ℕ
capped_end total e = min (e.addr + e.len) total / 4096

-- Does the entry free the page?
abbrev pub frees : ℕ → Entry → ℕ → Bool
frees total e q =
    e.kind == 1
    && ltb e.addr total
    && leb (freed_from (e.addr / 4096) (capped_end total e)) q
    && ltb q (capped_end total e)

-- Does one of the first `n`?
unfoldable pub some_below : ℕ → (ℕ → Bool) → Bool
some_below zero f = false
some_below (suc n) f = some_below n f || f n

some_below-add_one : (n : ℕ) (f : ℕ → Bool) → some_below (n + 1) f ≡ some_below n f || f n
unfolding some_below
some_below-add_one n f = rw add-one

free_entry-Becomes :
    (e : Entry) (k : Kernel)
    → IsWellFormed k
    → k.total_pages ≡ k.total_memory / 4096
    → e.addr + e.len < 2 ^ 64
    → Becomes k (free_entry e k) (λ q. if frees k.total_memory e q then false else used k q)
unfolding free_entry
free_entry-Becomes e k w pages fits = elim (Bool-cases (e.kind == 1)) [
  | inr other ↦ rw other (Becomes-same k _ w (λ q. refl))
  | inl ram ↦ elim (Bool-cases (leb k.total_memory e.addr)) [
    | inl past ↦ rw (ram, past) (Becomes-same k _ w (λ q. ground arith))
    | inr inside ↦
        rw (ram, inside)
          (elim (Bool-cases (ltb k.total_memory (u64 (e.addr + e.len)))) [
            | inl long ↦ rw long (
                Becomes-ext
                  (pmm_mark_region_free-Becomes e.addr (sub64 k.total_memory e.addr) k w
                    (ground arith) (ground arith))
                  (λ q. ground arith))
            | inr short ↦ rw short (
                Becomes-ext (pmm_mark_region_free-Becomes e.addr e.len k w fits (ground arith))
                  (λ q. ground arith))
          ])
  ]
]

-- A memory map that stands below the bitmap, with entries that do not run past 2 ^ 64.
pub record IsSafeMap (m : Array) (bitmap tag : ℕ) : Type 0 where
  pub sized : entry_size m tag ≢ 0
  pub header : tag + 16 ≤ bitmap
  pub below : (i : ℕ) → i < num_entries m tag → entry_at m tag i + 24 ≤ bitmap
  pub no_wrap :
      (i : ℕ) → i < num_entries m tag → (entries m tag i).addr + (entries m tag i).len < 2 ^ 64

module _ (m b : Array) (bitmap : ℕ) (same : (a : ℕ) → a < bitmap → b a ≡ m a) where
  pub same_32 : (a : ℕ) → a + 4 ≤ bitmap → read32 b a ≡ read32 m a
  same_32 a h = read32_ext m b a (λ i p q. same i (omega arith))

  same_64 : (a : ℕ) → a + 8 ≤ bitmap → read64 b a ≡ read64 m a
  same_64 a h = read64_ext m b a (λ i p q. same i (omega arith))

  pub same_entry :
      (tag i : ℕ)
      → tag + 16 ≤ bitmap
      → entry_at m tag i + 24 ≤ bitmap
      → entries b tag i ≡ entries m tag i
  same_entry tag i h l = rw (same_32 (tag + 8) (omega arith)) (
      let a = entry_at m tag i in
      ground (
        arith,
        same_64 a (omega arith),
        same_64 (a + 8) (omega arith),
        same_32 (a + 16) (omega arith),
      ))

-- The pages that the first `n` entries of the map at `tag` free.
abbrev pub freed : Kernel → ℕ → ℕ → ℕ → Bool
freed k tag n q = some_below n (λ j. frees k.total_memory (entries k.mem tag j) q)

either :
    (a b c : Bool) → (if a then false else if b then false else c) ≡ (if b || a then false else c)
either true true c = refl
either true false c = refl
either false true c = refl
either false false c = refl

free_entry_at-Becomes :
    (tag i : ℕ) (k t : Kernel)
    → k.total_pages ≡ k.total_memory / 4096
    → IsSafeMap k.mem k.pmm_bitmap tag
    → i < num_entries k.mem tag
    → Becomes k t (λ q. if freed k tag i q then false else used k q)
    → Becomes k (free_entry_at tag i t) (λ q. if freed k tag (i + 1) q then false else used k q)
unfolding free_entry_at
free_entry_at-Becomes tag i k t pages safe l h =
    let e = entries k.mem tag i in
    let same : entries t.mem tag i ≡ e =
      same_entry k.mem t.mem k.pmm_bitmap (λ a below. h.keeps.outside a (inl below)) tag i
        safe.header (safe.below i l) in
    let memory : t.total_memory ≡ k.total_memory = ap (λ x. x.total_memory) h.keeps.rest in
    let step : Becomes t (free_entry e t)
        (λ q. if frees t.total_memory e q then false else used t q) =
      free_entry-Becomes e t h.well_formed (omega (arith, memory, total-keeps h.keeps))
        (safe.no_wrap i l) in
    subst (λ x. Becomes k (free_entry x t) (λ q. if freed k tag (i + 1) q then false else used k q))
      (sym same)
      (Becomes-trans _ h step (λ q.
        rw
          (
            h.pages q,
            memory,
            some_below-add_one i (λ j. frees k.total_memory (entries k.mem tag j) q),
          )
          (either (frees k.total_memory e q) (freed k tag i q) (used k q))))

pub free_entries-Becomes :
    (tag : ℕ) (k : Kernel)
    → IsWellFormed k
    → k.total_pages ≡ k.total_memory / 4096
    → IsSafeMap k.mem k.pmm_bitmap tag
    → let n = num_entries k.mem tag in
      Becomes k
        (for_range n 0 (free_entry_at tag) k)
        (λ q. if freed k tag n q then false else used k q)
free_entries-Becomes tag k w pages safe =
    let n = num_entries k.mem tag in
    for_range_inv (λ i t. Becomes k t (λ q. if freed k tag i q then false else used k q))
      (free_entry_at tag) n 0 n k (omega arith)
      (λ i t lo hi h. free_entry_at-Becomes tag i k t pages safe hi h)
      (Becomes-same k _ w (λ q. unfold some_below in refl))

-- How many tags the walk passes before it stops.
unfoldable pub skipped : {m : Array} {stop tag : ℕ} → TagsTo m stop tag → ℕ
skipped (here e t) = 0
skipped (skip a b c d e r) = suc (skipped r)

-- The loop over the tags finds the map if fewer than `rounds` tags stand before it.
pub free_walk_lem :
    (rounds : ℕ) {stop tag : ℕ} (k : Kernel) (tags : TagsTo k.mem stop tag)
    → skipped tags < rounds
    → tag_type k.mem stop ≡ 6
    → entry_size k.mem stop ≢ 0
    → free_walk rounds tag k ≡ returns (for_range (num_entries k.mem stop) 0 (free_entry_at stop) k)
unfolding free_walk skipped
free_walk_lem zero k tags h ram sized = elim h [ ]
free_walk_lem (suc rounds) {stop} {tag} k (here e t) h ram sized = rw e (ground arith)
free_walk_lem (suc rounds) {stop} {tag} k (skip a b c d e r) h ram sized =
    ground (arith, free_walk_lem rounds k r (omega arith) ram sized)

used-console : (k : Kernel) (c : Console) (q : ℕ) → used (record k { console = c }) q ≡ used k q
unfolding pmm_is_page_used
used-console k c q = refl

-- The console aside, `t` comes from `k` by freeing the RAM of the map at `stop` and then marking the
-- pages that overlap the kernel or the bitmap.
abbrev pub in_use : Kernel → ℕ → ℕ → Bool
in_use k stop q =
    if ltb q k.total_pages && overlaps k.kernel_start (k.pmm_bitmap + k.bitmap_size) q
    then true
    else if freed k stop (num_entries k.mem stop) q
    then false
    else used k q
