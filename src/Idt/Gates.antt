-- ===== src/Idt/Gates.antt =====
-- What the processor reads from the table after `idt_init`.
use zig_boot.Prelude.{
  ℕ, ◌+◌, ◌*◌, ◌^◌, ◌<◌, ◌≡◌, refl, arith, ◌==◌, ltb, if◌then◌else◌, for_range, for_range_inv,
  Bool-cases, inl, inr, true, false,
}
use native.Mathlib.Decide.{ℕ_discrete}
use zig_boot.Idt.{timer_vector, gate, IdtEntry, Idt, Handlers, idt_set_gate, idt_init}

-- The address that the processor puts together from a gate.
abbrev pub offset : IdtEntry → ℕ
offset e = e.offset_low + 2 ^ 16 * e.offset_mid + 2 ^ 32 * e.offset_high

-- A present 64-bit interrupt gate of the kernel's code segment that leads to `handler`.
pub record LeadsTo (e : IdtEntry) (handler : ℕ) : Type 0 where
  pub address : offset e ≡ handler
  pub code : e.selector ≡ 0x08
  pub attributes : e.type_attr ≡ 0x8E
  pub no_stack : e.ist ≡ 0
  pub reserved : e.zero_field ≡ 0

gate-LeadsTo : (handler : ℕ) → handler < 2 ^ 64 → LeadsTo (gate handler 0x08 0x8E) handler
gate-LeadsTo handler h = record {
  address = omega arith;
  code = refl;
  attributes = refl;
  no_stack = refl;
  reserved = refl;
}

-- A loop that sets the gates from 0 on.
gates_loop :
    (f : ℕ → ℕ) (n : ℕ) (t : Idt) (j : ℕ)
    → (for_range n 0 (λ i u. idt_set_gate i (f i) 0x08 0x8E u) t).idt j
      ≡ (if ltb j n then gate (f j) 0x08 0x8E else t.idt j)
unfolding idt_set_gate
gates_loop f n t =
    for_range_inv (λ i u. (j : ℕ) → u.idt j ≡ (if ltb j i then gate (f j) 0x08 0x8E else t.idt j))
      (λ i u. idt_set_gate i (f i) 0x08 0x8E u) n 0 n t (omega arith)
      (λ i u lo hi h j. elim (ℕ_discrete j i) [
        | yes e ↦
            let at : (i == i) ≡ true = ground arith in
            let now : ltb i (i + 1) ≡ true = ground arith in rw (e, at, now) refl
        | no ne ↦
            let apart : (j == i) ≡ false = ground arith in
            let same : ltb j (i + 1) ≡ ltb j i = ground arith in rw (apart, same) (h j)
      ])
      (λ j. let none_yet : ltb j 0 ≡ false = ground arith in rw none_yet refl)

-- The handler of a vector: the exception stubs below 32, the timer at 32, `pure_iretq_handler` above.
abbrev pub handler_of : Handlers → ℕ → ℕ
handler_of h i =
    if ltb i 32
    then h.exception_stubs i
    else if i == timer_vector
    then h.timer_irq_stub
    else h.pure_iretq_handler

pub record AreAddresses (h : Handlers) : Type 0 where
  pub iretq : h.pure_iretq_handler < 2 ^ 64
  pub stubs : (i : ℕ) → i < 32 → h.exception_stubs i < 2 ^ 64
  pub timer : h.timer_irq_stub < 2 ^ 64

idt_init-gate :
    (h : Handlers) (t : Idt) (i : ℕ)
    → i < 256
    → (idt_init h t).idt i ≡ gate (handler_of h i) 0x08 0x8E
unfolding idt_init idt_set_gate
idt_init-gate h t i l =
    let all = gates_loop (λ j. h.pure_iretq_handler) 256 t i in
    let first =
      gates_loop h.exception_stubs 32
        (for_range 256 0 (λ j u. idt_set_gate j h.pure_iretq_handler 0x08 0x8E u) t) i in
    let inside : ltb i 256 ≡ true = ground arith in
    rw (first, all, inside)
      (elim (Bool-cases (ltb i 32)) [
        | inl low ↦ let other : (i == 32) ≡ false = ground arith in rw (low, other) refl
        | inr high ↦
            rw high (elim (Bool-cases (i == 32)) [ inl e ↦ rw e refl | inr ne ↦ rw ne refl ])
      ])

handler_of-lt : (h : Handlers) → AreAddresses h → (i : ℕ) → handler_of h i < 2 ^ 64
handler_of-lt h a i = ground (arith, a.iretq, a.stubs i, a.timer)

-- After `idt_init` every one of the 256 gates leads to its handler, given 64-bit addresses: the
-- exception stubs below 32, the timer stub at 32, `pure_iretq_handler` above; and the processor has
-- loaded the table with its limit of 4095.
pub idt_init-LeadsTo :
    (h : Handlers) (t : Idt)
    → AreAddresses h
    → ((i : ℕ) → i < 256 → LeadsTo ((idt_init h t).idt i) (handler_of h i))
      × ((idt_init h t).loaded ≡ (4095, h.idt_address))
unfolding idt_init
idt_init-LeadsTo h t a =
    (λ i l. rw (idt_init-gate h t i l) (gate-LeadsTo (handler_of h i) (handler_of-lt h a i)), refl)
