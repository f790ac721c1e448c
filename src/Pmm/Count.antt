-- ===== src/Pmm/Count.antt =====
-- How many of the first `n` places hold.
use native.Mathlib.Decide.{dec_lt}
use zig_boot.Prelude.{
  ℕ, zero, suc, ◌+◌, ◌≤◌, ◌<◌, ◌≡◌, refl, Bool, true, false, ◌&&◌, arith, ◌==◌, ltb, leb,
  if◌then◌else◌,
}

abbrev pub bit_value : Bool → ℕ
bit_value b = if b then 1 else 0

unfoldable pub count : ℕ → (ℕ → Bool) → ℕ
count zero f = 0
count (suc n) f = count n f + bit_value (f n)

pub count-le : (n : ℕ) (f : ℕ → Bool) → count n f ≤ n
unfolding count
count-le zero f = omega arith
count-le (suc n) f = ground (arith, count-le n f)

pub count_ext : (n : ℕ) (f g : ℕ → Bool) → ((q : ℕ) → q < n → g q ≡ f q) → count n g ≡ count n f
unfolding count
count_ext zero f g h = refl
count_ext (suc n) f g h = ground (arith, h n, count_ext n f g (λ q l. h q (omega arith)))

pub count_mono : (m n : ℕ) (f : ℕ → Bool) → m ≤ n → count m f ≤ count n f
unfolding count
count_mono m zero f h = let e : m ≡ 0 = omega arith in rw e (omega arith)
count_mono m (suc n) f h = elim (dec_lt n m) [
  | yes all ↦ let e : m ≡ suc n = omega arith in rw e (omega arith)
  | no less ↦ omega (arith, count_mono m n f (omega arith))
]

-- Changing one place.
pub count_update :
    (n : ℕ) (f g : ℕ → Bool) (p : ℕ) (b : Bool)
    → p < n
    → ((q : ℕ) → q < n → g q ≡ (if p == q then b else f q))
    → count n g + bit_value (f p) ≡ count n f + bit_value b
unfolding count
count_update zero f g p b h e = elim h [ ]
count_update (suc n) f g p b h e = elim (dec_lt p n) [
  | yes below ↦ ground (arith, e n, count_update n f g p b below (λ q l. e q (omega arith)))
  | no last ↦
      ground (arith, e n, count_ext n f g (λ q l. let d = e q (omega arith) in ground arith))
]

-- Emptying the `m` places from `a` on.
pub count_clear :
    (m n : ℕ) (f g : ℕ → Bool) (a : ℕ)
    → a + m ≤ n
    → ((q : ℕ) → q < n → g q ≡ (if leb a q && ltb q (a + m) then false else f q))
    → count n g + count m (λ i. f (a + i)) ≡ count n f
unfolding count
count_clear zero n f g a h e =
    ground (arith, count_ext n f g (λ q l. let d = e q l in ground arith))
count_clear (suc m) n f g a h e =
    let but_last : (ℕ → Bool) = λ q. if leb a q && ltb q (a + m) then false else f q in
    ground (
      arith,
      count_clear m n f but_last a (omega arith) (λ q l. refl),
      count_update n but_last g (a + m) false (omega arith) (λ q l. let d = e q l in ground arith),
    )

pub count_full : (n : ℕ) (f : ℕ → Bool) → ((q : ℕ) → q < n → f q ≡ true) → count n f ≡ n
unfolding count
count_full zero f h = refl
count_full (suc n) f h = ground (arith, h n, count_full n f (λ q l. h q (omega arith)))
