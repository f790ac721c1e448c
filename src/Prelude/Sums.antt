-- ===== src/Prelude/Sums.antt =====
-- Finite sums.
use native.Mathlib.Numerals.{add-one}
use Prim.Native.Nat.{ℕ, zero, suc, ◌+◌, ◌≤◌, ◌<◌}
use mathlib.Core.Path.{◌≡◌, refl, sym}
use mathlib.Core.Logic.{◌≢◌}
use native.Mathlib.Omega.{arith}
use native.Mathlib.Decide.{ℕ_discrete}

-- `f 0 + f 1 + …`, `n` terms.
unfoldable pub sum_to : ℕ → (ℕ → ℕ) → ℕ
sum_to zero f = 0
sum_to (suc n) f = sum_to n f + f n

pub sum_to-add_one : (n : ℕ) (f : ℕ → ℕ) → sum_to (n + 1) f ≡ sum_to n f + f n
unfolding sum_to
sum_to-add_one n f = rw add-one

pub sum_to_ext : (n : ℕ) (f g : ℕ → ℕ) → ((q : ℕ) → q < n → g q ≡ f q) → sum_to n g ≡ sum_to n f
unfolding sum_to
sum_to_ext zero f g h = refl
sum_to_ext (suc n) f g h =
    omega (arith, h n (omega arith), sum_to_ext n f g (λ q l. h q (omega arith)))

-- A change at one place.
pub sum_to_update :
    (n : ℕ) (f g : ℕ → ℕ) (p : ℕ)
    → p < n
    → ((q : ℕ) → q < n → q ≢ p → g q ≡ f q)
    → sum_to n g + f p ≡ sum_to n f + g p
unfolding sum_to
sum_to_update zero f g p l h = absurd (omega arith)
sum_to_update (suc n) f g p l h = elim (ℕ_discrete p n) [
  | yes e ↦
      let rest = sum_to_ext n f g (λ q k. h q (omega arith) (omega arith)) in
      rw e (omega (arith, rest))
  | no ne ↦ omega (
    arith,
    h n (omega arith) (λ d. ne (sym d)),
    sum_to_update n f g p (omega arith) (λ q k. h q (omega arith)),
  )
]

-- A sum is no smaller than the sum of smaller terms.
pub sum_to_mono : (n : ℕ) (f g : ℕ → ℕ) → ((q : ℕ) → f q ≤ g q) → sum_to n f ≤ sum_to n g
unfolding sum_to
sum_to_mono zero f g h = omega arith
sum_to_mono (suc n) f g h = omega (arith, h n, sum_to_mono n f g h)
