-- ===== src/Barrier/Safety.antt =====
-- No processor leaves a barrier before all have arrived at it.
use zig_boot.Prelude.{
  ℕ, zero, suc, ◌+◌, ◌^◌, ◌≤◌, ◌<◌, ◌≡◌, ◌≢◌, refl, ◌∙◌, sym, ◌⊎◌, inl, inr, Bool, true, false,
  ◌&&◌, arith, ◌==◌, if◌then◌else◌,
}
use native.Mathlib.Decide.{ℕ_discrete}
use zig_boot.Pmm.Count.{count, count-le, count_ext, count_update}
use zig_boot.Barrier.{
  Barrier, outside, entered, waiting, arrived_last, flipping, leave, on_read, on_arrive, on_flip,
  Step, read_sense, arrive, arrive_last, reset, flip, see_flip, Reachable, start, next,
}

-- The processor waits for the sense to change from what it is now.
abbrev pub arrived : Barrier → ℕ → Bool
arrived b j = (b.place j == waiting) && (b.my_sense j == b.barrier_sense)

-- In the round after `r` flips: a processor has passed `r` barriers and is outside, or has read the
-- sense, or waits; or it has still to see the last flip.
abbrev pub Stands : ℕ → Barrier → ℕ → Type 0
Stands r b j =
    ((b.passed j ≡ r)
      × ((b.place j ≡ outside)
          ⊎ (b.place j ≡ entered) × (b.my_sense j ≡ b.barrier_sense)
          ⊎ (b.place j ≡ waiting) × (b.my_sense j ≡ b.barrier_sense)))
    ⊎ (b.passed j + 1 ≡ r) × (b.place j ≡ waiting) × (b.my_sense j + b.barrier_sense ≡ 1)

pub data Phase (n r : ℕ) (b : Barrier) : Type 0 where
  open_round :
      ((j : ℕ) → j < n → Stands r b j)
      → b.barrier_count ≡ count n (arrived b)
      → b.barrier_count < n
      → Phase n r b
  closing :
      (p : ℕ)
      → p < n
      → b.passed p ≡ r
      → b.my_sense p ≡ b.barrier_sense
      → (b.place p ≡ arrived_last) ⊎ (b.place p ≡ flipping) × (b.barrier_count ≡ 0)
      → ((j : ℕ)
          → j < n
          → j ≢ p
          → (b.passed j ≡ r) × (b.place j ≡ waiting) × (b.my_sense j ≡ b.barrier_sense))
      → Phase n r b

count_all : (n : ℕ) (f : ℕ → Bool) → count n f ≡ n → (j : ℕ) → j < n → f j ≡ true
unfolding count
count_all zero f e j h = elim h [ ]
count_all (suc n) f e j h = elim (ℕ_discrete j n) [
  | yes last ↦ rw last (ground (arith, count-le n f))
  | no below ↦ count_all n f (ground (arith, count-le n f)) j (omega arith)
]

-- All but one.
count_others :
    (n : ℕ) (f : ℕ → Bool) (p : ℕ)
    → p < n
    → f p ≡ false
    → count n f + 1 ≡ n
    → (j : ℕ) → j < n
    → j ≢ p
    → f j ≡ true
count_others n f p h miss e j l ne =
    let g : (ℕ → Bool) = λ q. if p == q then true else f q in
    let full : count n g ≡ n = ground (arith, count_update n f g p true h (λ q l. refl)) in
    let at : g j ≡ true = count_all n g full j l in ground (arith, at)

count_none : (n : ℕ) (f : ℕ → Bool) → ((j : ℕ) → j < n → f j ≡ false) → count n f ≡ 0
unfolding count
count_none zero f h = refl
count_none (suc n) f h = ground (arith, h n, count_none n f (λ j l. h j (omega arith)))

-- The sense is 0 or 1.
abbrev pub Round : ℕ → ℕ → Barrier → Type 0
Round n r b = Phase n r b × (b.barrier_sense ≤ 1)

-- One step of a round: the same round, or the next one after the flip.
module _ (n r : ℕ) (b : Barrier) (small : n < 2 ^ 32) (binary : b.barrier_sense ≤ 1) where
  open_round-Step :
      {c : Barrier}
      → ((j : ℕ) → j < n → Stands r b j)
      → b.barrier_count ≡ count n (arrived b)
      → b.barrier_count < n
      → Step n b c
      → Phase n r c
  open_round-Step s e l (read_sense i h at) =
      open_round (λ j g. ground (arith, s j g, s i h))
        (e ∙ sym (count_ext n (arrived b) (arrived (on_read i b)) (λ q g. ground (arith, s i h)))) l
  open_round-Step s e l (arrive i h at ne) =
      open_round (λ j g. ground (arith, s j g, s i h))
        (ground (
          arith,
          s i h,
          count_update n (arrived b) (arrived (on_arrive waiting i b)) i true h
              (λ q g. ground (arith, s i h)),
        ))
        (ground arith)
  open_round-Step s e l (arrive_last i h at eq') =
      let others = count_others n (arrived b) i h (ground arith) (ground arith) in
      closing i h (ground (arith, s i h)) (ground (arith, s i h)) (inl (ground arith))
        (λ j g ne. ground (arith, s j g, others j g ne))
  open_round-Step s e l (reset i h at) = absurd (ground (arith, s i h))
  open_round-Step s e l (flip i h at) = absurd (ground (arith, s i h))
  open_round-Step s e l (see_flip i h at ne) =
      open_round (λ j g. ground (arith, s j g, s i h))
        (e ∙ sym (count_ext n (arrived b) (arrived (leave i b)) (λ q g. ground (arith, s i h)))) l

  closing-Step :
      {c : Barrier} (p : ℕ)
      → p < n
      → b.passed p ≡ r
      → b.my_sense p ≡ b.barrier_sense
      → (b.place p ≡ arrived_last) ⊎ (b.place p ≡ flipping) × (b.barrier_count ≡ 0)
      → ((j : ℕ)
          → j < n
          → j ≢ p
          → (b.passed j ≡ r) × (b.place j ≡ waiting) × (b.my_sense j ≡ b.barrier_sense))
      → Step n b c
      → Phase n r c ⊎ Phase n (r + 1) c
  closing-Step p l d m w o (read_sense i h at) = absurd (ground (arith, o i h))
  closing-Step p l d m w o (arrive i h at ne) = absurd (ground (arith, o i h))
  closing-Step p l d m w o (arrive_last i h at eq') = absurd (ground (arith, o i h))
  closing-Step p l d m w o (reset i h at) =
      let me : i ≡ p = ground (arith, o i h) in
      inl (closing p l d m (inr (ground arith, refl)) (λ j g ne. ground (arith, o j g ne)))
  closing-Step p l d m w o (flip i h at) =
      let me : i ≡ p = ground (arith, o i h) in
      inr (
        open_round (λ j g. ground (arith, o j g))
          (ground (arith, count_none n (arrived (on_flip i b)) (λ j g. ground (arith, o j g))))
          (ground arith))
  closing-Step p l d m w o (see_flip i h at ne) = absurd (ground (arith, o i h))

binary-Step : {n : ℕ} {b c : Barrier} → b.barrier_sense ≤ 1 → Step n b c → c.barrier_sense ≤ 1
binary-Step l (read_sense i h at) = l
binary-Step l (arrive i h at ne) = l
binary-Step l (arrive_last i h at eq') = l
binary-Step l (reset i h at) = l
binary-Step l (flip i h at) = ground arith
binary-Step l (see_flip i h at ne) = l

Round-Step :
    {n r : ℕ} {b c : Barrier} → n < 2 ^ 32 → Round n r b → Step n b c → (r' : ℕ) × Round n r' c
Round-Step {n} {r} {b} small (open_round s e l, y) st =
    (r, (open_round-Step n r b small y s e l st, binary-Step y st))
Round-Step {n} {r} {b} small (closing p l d m w o, y) st =
    elim (closing-Step n r b small y p l d m w o st) [
      | inl same ↦ (r, (same, binary-Step y st))
      | inr later ↦ (r + 1, (later, binary-Step y st))
    ]

pub Reachable-Round :
    {n : ℕ} {b : Barrier} → 0 < n → n < 2 ^ 32 → Reachable n b → (r : ℕ) × Round n r b
Reachable-Round {n} {b} some small (start s) = (
  0,
  (
    open_round (λ j g. ground (arith, s.all_outside j, s.none_passed j))
        (ground
          (arith, s.no_count, count_none n (arrived b) (λ j g. ground (arith, s.all_outside j))))
        (omega (arith, s.no_count)),
    omega (arith, s.no_sense),
  ),
)
Reachable-Round some small (next q st) =
    let (r, h) = Reachable-Round some small q in Round-Step small h st

-- In every reachable state of a barrier of at least one and fewer than 2 ^ 32 processors: none is
-- more than one barrier ahead of another, and one that is behind has arrived at the barrier that the
-- other has left.
pub barrier_wait-safe :
    (n : ℕ) (b : Barrier)
    → 0 < n
    → n < 2 ^ 32
    → Reachable n b
    → (i j : ℕ) → i < n
    → j < n
    → (b.passed i ≤ b.passed j)
      ⊎ (b.passed i ≡ b.passed j + 1) × (b.place j ≡ waiting) × (b.my_sense j ≢ b.barrier_sense)
barrier_wait-safe n b some small q i j h g = safe (Reachable-Round some small q)
  where
    safe :
        (r : ℕ) × Round n r b
        → (b.passed i ≤ b.passed j)
          ⊎ (b.passed i ≡ b.passed j + 1) × (b.place j ≡ waiting) × (b.my_sense j ≢ b.barrier_sense)
    safe (r, (open_round s e l, y)) = ground (arith, s i h, s j g)
    safe (r, (closing p l d m w o, y)) = ground (arith, o i h, o j g)
