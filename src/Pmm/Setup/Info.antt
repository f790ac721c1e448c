-- ===== src/Pmm/Setup/Info.antt =====
-- The information is read the same before and after `pmm_init`, which does not overwrite it.
use zig_boot.Prelude.{
  ℕ, zero, suc, ◌+◌, ◌≤◌, ◌<◌, ◌^◌, ◌≡◌, refl, sym, subst, ◌∙◌, ap, ap₂, Bool, ◌||◌, arith, Array,
  u32, clear_low, sub64, ◌/◌,
}
use zig_boot.Multiboot.{tag_size, next_tag, entry_size, num_entries}
use zig_boot.Multiboot.Entries.{entries}
use zig_boot.Multiboot.Walk.{TagsTo, here, skip, TagsTo-le}
use zig_boot.Pmm.Setup.Regions.{IsSafeMap, frees, skipped, some_below, same_32, same_entry}

-- Only what holds below `n` matters.
some_below_ext :
    (n : ℕ) (f g : ℕ → Bool) → ((i : ℕ) → i < n → f i ≡ g i) → some_below n f ≡ some_below n g
unfolding some_below
some_below_ext zero f g h = refl
some_below_ext (suc n) f g h =
    ap₂ ◌||◌ (some_below_ext n f g (λ i l. h i (omega arith))) (h n (omega arith))

module _ (m b : Array) (bound : ℕ) (same : (a : ℕ) → a < bound → b a ≡ m a) where
  same_next : (tag : ℕ) → tag + 16 ≤ bound → next_tag b tag ≡ next_tag m tag
  same_next tag h =
      ap (λ (s : ℕ). tag + clear_low 3 (u32 (s + 7)))
        (same_32 m b bound same (tag + 4) (omega arith))

  pub TagsTo-same :
      {stop tag : ℕ} (tags : TagsTo m stop tag)
      → stop + 16 ≤ bound
      → (r : TagsTo b stop tag) × (skipped r ≡ skipped tags)
  unfolding skipped
  TagsTo-same {stop} {tag} (here e t) h =
      let kind = same_32 m b bound same tag (omega arith) in (here e (rw kind t), refl)
  TagsTo-same {stop} {tag} (skip z n s f e r) h =
      let at : tag + 16 ≤ bound = omega (arith, TagsTo-le r) in
      let kind = same_32 m b bound same tag (omega arith) in
      let size = same_32 m b bound same (tag + 4) (omega arith) in
      let (r', count) = TagsTo-same r h in
      (skip (rw kind z) (rw kind n) (rw size s) (rw size f) (same_next tag at ∙ e) r', ap suc count)

  pub IsSafeMap-same :
      (bitmap tag : ℕ) → bound ≤ bitmap → IsSafeMap m bound tag → IsSafeMap b bitmap tag
  IsSafeMap-same bitmap tag h safe =
      let step : entry_size b tag ≡ entry_size m tag =
        same_32 m b bound same (tag + 8) (omega (arith, safe.header)) in
      let size : tag_size b tag ≡ tag_size m tag =
        same_32 m b bound same (tag + 4) (omega (arith, safe.header)) in
      record {
        sized = rw step safe.sized;
        header = omega (arith, safe.header);
        below = λ i l. rw step (omega (arith, safe.below i (rw (step, size) at l)));
        no_wrap = λ i l.
            let l' : i < num_entries m tag = rw (step, size) at l in
            subst (λ e. e.addr + e.len < 2 ^ 64)
              (sym (same_entry m b bound same tag i safe.header (safe.below i l')))
              (safe.no_wrap i l');
      }

  pub some_frees-same :
      (total tag q : ℕ)
      → IsSafeMap m bound tag
      → some_below (num_entries b tag) (λ j. frees total (entries b tag j) q)
        ≡ some_below (num_entries m tag) (λ j. frees total (entries m tag j) q)
  some_frees-same total tag q safe =
      let step : entry_size b tag ≡ entry_size m tag =
        same_32 m b bound same (tag + 8) (omega (arith, safe.header)) in
      let size : tag_size b tag ≡ tag_size m tag =
        same_32 m b bound same (tag + 4) (omega (arith, safe.header)) in
      ap₂ (λ (s z : ℕ). some_below (u32 (sub64 s 16 / z)) (λ j. frees total (entries b tag j) q))
        size step
      ∙ some_below_ext (num_entries m tag) _ _ (λ i l.
        ap (λ e. frees total e q) (same_entry m b bound same tag i safe.header (safe.below i l)))
