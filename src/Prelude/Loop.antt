-- ===== src/Prelude/Loop.antt =====
-- Counted loops.
use Prim.Native.Nat.{ℕ, zero, suc, ◌+◌, ◌≤◌, ◌<◌}
use mathlib.Core.Path.{◌≡◌, subst}
use native.Mathlib.Omega.{arith}

-- `for (i = lo; i < lo + n; i++) s = body(i, s)`
unfoldable pub for_range {ℓ} : {S : Type ℓ} → ℕ → ℕ → (ℕ → S → S) → S → S
for_range zero lo body s = s
for_range (suc n) lo body s = for_range n (lo + 1) body (body lo s)

-- The invariant rule, whose step may use that the index is in range. The end `hi` is a variable.
pub for_range_inv {ℓ κ} :
    {S : Type ℓ} (P : ℕ → S → Type κ) (body : ℕ → S → S) (n lo hi : ℕ) (s : S)
    → lo + n ≡ hi
    → ((i : ℕ) (t : S) → lo ≤ i → i < hi → P i t → P (i + 1) (body i t))
    → P lo s
    → P hi (for_range n lo body s)
unfolding for_range
for_range_inv P body zero lo hi s e keep h =
    let e' : lo ≡ hi = omega arith in subst (λ j. P j s) e' h
for_range_inv P body (suc n) lo hi s e keep h =
    for_range_inv P body n (lo + 1) hi (body lo s) (omega arith)
      (λ i t p q. keep i t (omega arith) q) (keep lo s (omega arith) (omega arith) h)

pub for_range-zero {ℓ} :
    {S : Type ℓ} (n lo : ℕ) (body : ℕ → S → S) (s : S) → n ≡ 0 → for_range n lo body s ≡ s
unfolding for_range
for_range-zero n lo body s e = rw e
