-- ===== src/Pmm/Step.antt =====
-- One round of each loop of the PMM keeps the invariant, and changes the bits that it should.
use zig_boot.Prelude.{
  ℕ, suc, ◌+◌, ◌*◌, ◌/◌, ◌%◌, ◌≤◌, ◌<◌, ◌^◌, ◌≡◌, refl, ◌∙◌, ap, inl, inr, Bool, true, false, not,
  ◌&&◌, arith, ◌==◌, ltb, leb, if◌then◌else◌, sub64, u64, test_bit, set_bit-lt, clear_bit-lt,
  zero_bits, Bool-cases, for_range, for_range_inv,
}
use zig_boot.Kernel.{Kernel}
use zig_boot.Pmm.{
  pmm_mark_page, pmm_clear_page, pmm_is_page_used, clear_if_used, mark_if_free, clear_byte,
}
use zig_boot.Pmm.Count.{count, count_mono, count-le, count_ext, count_update, count_clear}
use zig_boot.Pmm.Bitmap.{used, used-mark, used-clear, IsWellFormed, KeepsRest, Becomes}

pub KeepsRest-refl : (k : Kernel) → KeepsRest k k
KeepsRest-refl k = record { rest = refl; outside = λ a h. refl }

pub total-keeps : {k t : Kernel} → KeepsRest k t → t.total_pages ≡ k.total_pages
total-keeps h = ap (λ x. x.total_pages) h.rest

pub KeepsRest-trans : {k t u : Kernel} → KeepsRest k t → KeepsRest t u → KeepsRest k u
KeepsRest-trans {k} {t} {u} a b = record {
  rest = ground arith;
  outside = λ i h. b.outside i (ground arith) ∙ a.outside i h;
}

pub Becomes-same :
    (k : Kernel) (f : ℕ → Bool) → IsWellFormed k → ((q : ℕ) → used k q ≡ f q) → Becomes k k f
Becomes-same k f w h = record { well_formed = w; keeps = KeepsRest-refl k; pages = h }

pub Becomes-ext :
    {k t : Kernel} {f g : ℕ → Bool} → Becomes k t f → ((q : ℕ) → f q ≡ g q) → Becomes k t g
Becomes-ext b e = record {
  well_formed = b.well_formed;
  keeps = b.keeps;
  pages = λ q. b.pages q ∙ e q;
}

pub Becomes-trans :
    {k t u : Kernel} {f g : ℕ → Bool} (h : ℕ → Bool)
    → Becomes k t f
    → Becomes t u g
    → ((q : ℕ) → g q ≡ h q)
    → Becomes k u h
Becomes-trans h a b e = record {
  well_formed = b.well_formed;
  keeps = KeepsRest-trans a.keeps b.keeps;
  pages = λ q. b.pages q ∙ e q;
}

count-bound : (k : Kernel) → IsWellFormed k → k.used_pages ≤ k.total_pages
count-bound k w = omega (arith, count-le k.total_pages (used k))

pub clear-Becomes :
    (p : ℕ) (k : Kernel)
    → IsWellFormed k
    → p < k.total_pages
    → used k p ≡ true
    → Becomes k
        (record (pmm_clear_page p k) { used_pages = sub64 k.used_pages 1 })
        (λ q. if p == q then false else used k q)
unfolding pmm_clear_page pmm_is_page_used
clear-Becomes p k w h u = record {
  well_formed = record {
    bytes = λ a. ground (arith, w.bytes a, clear_bit-lt (k.mem (k.pmm_bitmap + p / 8)) (p % 8));
    pages_fit = w.pages_fit;
    bitmap_fits = w.bitmap_fits;
    counted = ground (
      arith,
      count_update k.total_pages (used k) _ p false h (λ q l. used-clear p q k w.bytes),
      count-bound k w,
    );
  };
  keeps = record { rest = refl; outside = λ a o. ground (arith, w.bitmap_fits) };
  pages = λ q. used-clear p q k w.bytes;
}

pub mark-Becomes :
    (p : ℕ) (k : Kernel)
    → IsWellFormed k
    → p < k.total_pages
    → used k p ≡ false
    → Becomes k
        (record (pmm_mark_page p k) { used_pages = u64 (k.used_pages + 1) })
        (λ q. if p == q then true else used k q)
unfolding pmm_mark_page pmm_is_page_used
mark-Becomes p k w h u = record {
  well_formed = record {
    bytes = λ a. ground (arith, w.bytes a, set_bit-lt (k.mem (k.pmm_bitmap + p / 8)) (p % 8));
    pages_fit = w.pages_fit;
    bitmap_fits = w.bitmap_fits;
    counted = ground (
      arith,
      count_update k.total_pages (used k) _ p true h (λ q l. used-mark p q k w.bytes),
      count-bound k w,
    );
  };
  keeps = record { rest = refl; outside = λ a o. ground (arith, w.bitmap_fits) };
  pages = λ q. used-mark p q k w.bytes;
}

pub clear_if_used-Becomes :
    (p : ℕ) (k : Kernel)
    → IsWellFormed k
    → Becomes k (clear_if_used p k) (λ q. if p == q && ltb p k.total_pages then false else used k q)
unfolding clear_if_used
clear_if_used-Becomes p k w = elim (Bool-cases (ltb p k.total_pages && used k p)) [
  | inl e ↦
      rw e (Becomes-ext (clear-Becomes p k w (ground arith) (ground arith)) (λ q. ground arith))
  | inr e ↦ rw e (Becomes-same k _ w (λ q. ground arith))
]

pub mark_if_free-Becomes :
    (p : ℕ) (k : Kernel)
    → IsWellFormed k
    → Becomes k (mark_if_free p k) (λ q. if p == q && ltb p k.total_pages then true else used k q)
unfolding mark_if_free
mark_if_free-Becomes p k w = elim (Bool-cases (ltb p k.total_pages && not (used k p))) [
  | inl e ↦
      rw e (Becomes-ext (mark-Becomes p k w (ground arith) (ground arith)) (λ q. ground arith))
  | inr e ↦ rw e (Becomes-same k _ w (λ q. ground arith))
]

-- `used_pages` falls by the number of ones among the first `n` bits of `old`.
popcount_loop :
    (n old u : ℕ)
    → count n (test_bit old) ≤ u
    → u < 2 ^ 64
    → for_range n 0 (λ i used. if test_bit old i then sub64 used 1 else used) u
        + count n (test_bit old)
      ≡ u
unfolding count
popcount_loop n old u h l =
    for_range_inv (λ i t. t + count i (test_bit old) ≡ u) _ n 0 n u (omega arith)
      (λ i t lo hi e. ground (arith, count_mono (suc i) n (test_bit old) (omega arith)))
      (omega arith)

pub clear_byte-Becomes :
    (b : ℕ) (k : Kernel)
    → IsWellFormed k
    → b * 8 + 8 ≤ k.total_pages
    → Becomes k
        (clear_byte b k)
        (λ q. if leb (b * 8) q && ltb q (b * 8 + 8) then false else used k q)
unfolding clear_byte pmm_is_page_used
clear_byte-Becomes b k w h = record {
  well_formed = record {
    bytes = λ a. ground (arith, w.bytes a);
    pages_fit = w.pages_fit;
    bitmap_fits = w.bitmap_fits;
    counted = ground (
      arith,
      popcount_loop 8 old k.used_pages,
      count-bound k w,
      same_bits,
      count_clear 8 k.total_pages (used k) (used (clear_byte b k)) (b * 8) h (λ q l. cleared q),
    );
  };
  keeps = record { rest = refl; outside = λ a o. ground (arith, w.bitmap_fits) };
  pages = cleared;
}
  where
    old : ℕ
    old = k.mem (k.pmm_bitmap + b)

    same_bits : count 8 (λ i. used k (b * 8 + i)) ≡ count 8 (test_bit old)
    same_bits = count_ext 8 (test_bit old) (λ i. used k (b * 8 + i)) (λ i l. ground arith)

    cleared :
        (q : ℕ)
        → used (clear_byte b k) q ≡ (if leb (b * 8) q && ltb q (b * 8 + 8) then false else used k q)
    cleared q = ground (arith, zero_bits (q % 8))
