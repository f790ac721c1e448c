-- ===== src/Parallel/Sum.antt =====
-- The distributed sum: the parts add up to the whole in every order.
use mathlib.Core.List.{Permᴰ}
use native.Mathlib.Nat.{div-mul-le_self}
use zig_boot.Prelude.{
  ℕ, zero, suc, ◌+◌, ◌-◌, ◌*◌, ◌/◌, ◌^◌, ◌≤◌, ◌<◌, ◌≡◌, refl, ◌∙◌, ap, ap₂, true, false, inl, inr,
  arith, ◌==◌, u64, for_range_inv, sum_to, List, [], ◌∷◌, Bool-cases,
}
use zig_boot.Parallel.{
  sum_target, Results, first_of, last_of, local_sum, test_distributed_sum, all_sums,
}

-- The sum of the numbers up to and including `n`.
pub triangle : ℕ → ℕ
triangle zero = 0
triangle (suc n) = triangle n + suc n

triangle_closed : (n : ℕ) → 2 * triangle n ≡ n * n + n
unfolding triangle
triangle_closed zero = refl
triangle_closed (suc n) = omega (arith, triangle_closed n)

triangle_target : triangle 10000000 ≡ 50000005000000
triangle_target = omega (arith, triangle_closed 10000000)

triangle_next : (i : ℕ) → 0 < i → triangle i ≡ triangle (i - 1) + i
unfolding triangle
triangle_next zero h = absurd (omega arith)
triangle_next (suc n) h = let e : suc n - 1 ≡ n = omega arith in rw e refl

triangle_mono : (a b : ℕ) → a ≤ b → triangle a ≤ triangle b
unfolding triangle
triangle_mono a zero h = let e : a ≡ 0 = omega arith in rw e (omega arith)
triangle_mono a (suc n) h = elim (Bool-cases (a == suc n)) [
  | inl e ↦ let same : a ≡ suc n = ground arith in rw same (omega arith)
  | inr ne ↦ omega (arith, triangle_mono a n (ground arith))
]

-- The sum from `c + 1` to `b`, which does not wrap around.
local_sum_lem :
    (c b : ℕ) → c ≤ b → triangle b < 2 ^ 64 → local_sum (c + 1) b + triangle c ≡ triangle b
unfolding local_sum
local_sum_lem c b h l =
    let end : b + 1 - 1 ≡ b = omega arith in
    rw
      (for_range_inv (λ i s. s + triangle c ≡ triangle (i - 1)) (λ i sum. u64 (sum + i))
        (b + 1 - (c + 1)) (c + 1) (b + 1) 0 (omega arith)
        (λ i s lo hi e.
          let back : i + 1 - 1 ≡ i = omega arith in
          rw back
            (omega (arith, e, triangle_next i (omega arith), triangle_mono i b (omega arith))))
        (let back : c + 1 - 1 ≡ c = omega arith in rw back (omega arith)))
      (ap triangle end)

abbrev pub part : ℕ → ℕ → ℕ
part n c = local_sum (first_of n c) (last_of n c)

parts : ℕ → List ℕ → ℕ
parts n [] = 0
parts n (c ∷ cs) = part n c + parts n cs

all_sums-total :
    (n : ℕ) (cs : List ℕ) (r : Results)
    → r.total_sum < 2 ^ 64
    → (all_sums n cs r).total_sum ≡ u64 (r.total_sum + parts n cs)
unfolding all_sums test_distributed_sum parts
all_sums-total n [] r h = omega arith
all_sums-total n (c ∷ cs) r h =
    all_sums-total n cs (test_distributed_sum n c r) (omega arith) ∙ omega arith

parts-Perm : (n : ℕ) {cs ds : List ℕ} → Permᴰ cs ds → parts n cs ≡ parts n ds
unfolding parts
parts-Perm n Permᴰ.nil = refl
parts-Perm n (Permᴰ.cons e p) = ap₂ (λ a b. part n a + b) e (parts-Perm n p)
parts-Perm n (Permᴰ.swap {l = l} e f) = rw (e, f) (omega arith)
parts-Perm n (Permᴰ.trans p q) = parts-Perm n p ∙ parts-Perm n q

-- The processors below `n`, the last first.
unfoldable pub cpus_below : ℕ → List ℕ
cpus_below zero = []
cpus_below (suc n) = n ∷ cpus_below n

-- The share of each of `n` processors fits as often as it is needed.
share_fits : (n c : ℕ) → c ≤ n → c * (sum_target / n) ≤ sum_target
share_fits n c h =
    let q = sum_target / n in
    let more : c * q ≤ (c + (n - c)) * q = omega arith in
    let same : c + (n - c) ≡ n = omega arith in
    let all : c * q ≤ n * q = rw same at more in omega (arith, div-mul-le_self sum_target n)

triangle_fits : (b : ℕ) → b ≤ sum_target → triangle b < 2 ^ 64
triangle_fits b h = omega (arith, triangle_mono b sum_target h, triangle_target)

part_inner :
    (n c : ℕ)
    → c + 1 < n
    → part n c + triangle (c * (sum_target / n)) ≡ triangle ((c + 1) * (sum_target / n))
unfolding first_of last_of
part_inner n c h =
    let q = sum_target / n in
    let inner : (c + 1 == n) ≡ false = ground arith in
    rw inner (
      local_sum_lem (c * q) ((c + 1) * q) (omega arith)
        (triangle_fits _ (share_fits n (c + 1) (omega arith))))

part_last : (n c : ℕ) → c + 1 ≡ n → part n c + triangle (c * (sum_target / n)) ≡ triangle sum_target
unfolding first_of last_of
part_last n c h =
    let last : (c + 1 == n) ≡ true = ground arith in
    rw last (
      local_sum_lem (c * (sum_target / n)) sum_target (share_fits n c (omega arith))
        (triangle_fits _ (omega arith)))

-- The processors before `c` add up to the number after which `c` starts.
parts_below : (n c : ℕ) → c < n → parts n (cpus_below c) ≡ triangle (c * (sum_target / n))
unfolding parts cpus_below triangle
parts_below n zero h = let none_yet : 0 * (sum_target / n) ≡ 0 = omega arith in rw none_yet refl
parts_below n (suc c) h =
    let step : (c + 1) * (sum_target / n) ≡ suc c * (sum_target / n) = omega arith in
    omega (arith, parts_below n c (omega arith), part_inner n c (omega arith), ap triangle step)

parts_all : (n : ℕ) → 0 < n → parts n (cpus_below n) ≡ triangle sum_target
unfolding parts cpus_below
parts_all zero p = absurd (omega arith)
parts_all (suc c) p =
    omega (arith, parts_below (suc c) c (omega arith), part_last (suc c) c (omega arith))

sum_to-parts : (n k : ℕ) → sum_to k (part n) ≡ parts n (cpus_below k)
unfolding sum_to parts cpus_below
sum_to-parts n zero = refl
sum_to-parts n (suc k) = omega (arith, sum_to-parts n k)

-- The parts of all processors together.
pub sum_to-part : (n : ℕ) → 0 < n → sum_to n (part n) ≡ 50000005000000
sum_to-part n p = sum_to-parts n n ∙ parts_all n p ∙ triangle_target

-- In whatever order the processors from 0 to `cpu_count - 1` add their parts to a `total_sum` of 0,
-- each once, it ends as the sum of the numbers from 1 to 10,000,000.
pub all_sums-total_sum :
    (cpu_count : ℕ) (order : List ℕ) (r : Results)
    → 0 < cpu_count
    → Permᴰ order (cpus_below cpu_count)
    → r.total_sum ≡ 0
    → (all_sums cpu_count order r).total_sum ≡ 50000005000000
all_sums-total_sum cpu_count order r p perm start =
    all_sums-total cpu_count order r (omega arith)
    ∙ omega (arith, parts-Perm cpu_count perm, parts_all cpu_count p, triangle_target)
