-- ===== src/Barrier/Absent.antt =====
-- A processor that never calls `barrier_wait`, as the first one of hybrid/boot/init.c.
use zig_boot.Prelude.{ℕ, ◌<◌, ◌^◌, ◌≡◌, ◌≢◌, ◌⊎◌, ◌∙◌, sym, refl, ap, inl, inr, arith}
use zig_boot.Barrier.{
  Barrier, Step, waiting, outside, on_read, read_sense, arrive, arrive_last, reset, flip, see_flip,
  Reachable,
}
use zig_boot.Barrier.Safety.{open_round, closing, Round, Reachable-Round, barrier_wait-safe}
use native.Mathlib.Decide.{ℕ_discrete}

-- The processor `p` has not called the function.
pub record IsAbsent (p : ℕ) (b : Barrier) : Type 0 where
  pub place : b.place p ≡ outside
  pub none : b.passed p ≡ 0

none_passes :
    (n p : ℕ) (b : Barrier)
    → n < 2 ^ 32
    → p < n
    → Reachable n b
    → IsAbsent p b
    → (i : ℕ) → i < n
    → b.passed i ≡ 0
none_passes n p b small h q a i l = elim (barrier_wait-safe n b (omega arith) small q i p l h) [
  | inl le ↦ omega (arith, a.none)
  | inr (ahead, at, s) ↦ absurd (omega (arith, a.place, at))
]

-- In a round with an absent processor nobody has a stale sense.
same_sense :
    (n r p : ℕ) (b : Barrier)
    → p < n
    → Round n r b
    → IsAbsent p b
    → (i : ℕ) → i < n
    → b.place i ≡ waiting
    → b.my_sense i ≡ b.barrier_sense
same_sense n r p b h (open_round s e l, y) a i g at = ground (arith, s p h, s i g, a.place, a.none)
same_sense n r p b h (closing q l d m w o, y) a i g at = absurd (ground (arith, o p h, a.place))

-- A step is the first one of `p`, or one of another processor that was not waiting.
abbrev pub IsOther : ℕ → ℕ → Barrier → Barrier → Type 0
IsOther n p b c = IsAbsent p c × ((i : ℕ) × (i < n) × (i ≢ p) × (b.place i ≢ waiting))

-- A processor that is inside and not waiting has moved, and nothing has moved `p`.
moved :
    (n p i : ℕ) (b c : Barrier)
    → i < n
    → i ≢ p
    → b.place i ≢ waiting
    → IsAbsent p b
    → (c.place p ≡ b.place p) × (c.passed p ≡ b.passed p)
    → IsOther n p b c
moved n p i b c g ne busy a (place, passed) =
    (record { place = place ∙ a.place; none = passed ∙ a.none }, (i, g, ne, busy))

inside : (p i : ℕ) (b : Barrier) → b.place i ≢ outside → IsAbsent p b → i ≢ p
inside p i b at a e = at (ap b.place e ∙ a.place)

Step-IsOther :
    (n r p : ℕ) (b c : Barrier)
    → p < n
    → Round n r b
    → IsAbsent p b
    → Step n b c
    → (c ≡ on_read p b) ⊎ IsOther n p b c
Step-IsOther n r p b c h round a (read_sense i g at) = elim (ℕ_discrete i p) [
  | yes e ↦ inl (ap (λ j. on_read j b) e)
  | no ne ↦ inr (moved n p i b c g ne (omega (arith, at)) a (ground (arith, ne), refl))
]
Step-IsOther n r p b c h round a (arrive i g at more) =
    let ne : i ≢ p = inside p i b (omega (arith, at)) a in
    inr (moved n p i b c g ne (omega (arith, at)) a (ground (arith, ne), refl))
Step-IsOther n r p b c h round a (arrive_last i g at last) =
    let ne : i ≢ p = inside p i b (omega (arith, at)) a in
    inr (moved n p i b c g ne (omega (arith, at)) a (ground (arith, ne), refl))
Step-IsOther n r p b c h round a (reset i g at) =
    let ne : i ≢ p = inside p i b (omega (arith, at)) a in
    inr (moved n p i b c g ne (omega (arith, at)) a (ground (arith, ne), refl))
Step-IsOther n r p b c h round a (flip i g at) =
    let ne : i ≢ p = inside p i b (omega (arith, at)) a in
    inr (moved n p i b c g ne (omega (arith, at)) a (ground (arith, ne), ground (arith, ne)))
Step-IsOther n r p b c h round a (see_flip i g at new) =
    absurd (new (sym (same_sense n r p b h round a i g at)))

-- As long as the processor `p` has not called `barrier_wait`, no processor has got past its first
-- call, and a step is either the first one of `p`, or `p` stays absent and some other processor was
-- not waiting yet: once all the others wait, nothing happens without `p`.
pub barrier_wait-absent :
    (n p : ℕ) (b : Barrier)
    → n < 2 ^ 32
    → p < n
    → Reachable n b
    → IsAbsent p b
    → ((i : ℕ) → i < n → b.passed i ≡ 0)
      × ((c : Barrier) → Step n b c → (c ≡ on_read p b) ⊎ IsOther n p b c)
barrier_wait-absent n p b small h q a =
    let (r, round) = Reachable-Round (omega arith) small q in
    (none_passes n p b small h q a, λ c s. Step-IsOther n r p b c h round a s)
