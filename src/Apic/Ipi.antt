-- ===== src/Apic/Ipi.antt =====
-- An interprocessor interrupt reaches its processor with its flags, in both modes.
use zig_boot.Prelude.{
  ℕ, zero, suc, ◌+◌, ◌*◌, ◌/◌, ◌%◌, ◌^◌, ◌<◌, ◌≡◌, refl, sym, ap, not, subst, leb, ◌∙◌, inl, inr,
  true, false, arith, ◌==◌, Bool-cases, bit_and, u32, u64, List, [], ◌∷◌, bit_or_apart,
}
use zig_boot.Device.{Access, rdmsr, wrmsr, mmio_read, mmio_write, pauses}
use zig_boot.Device as Device
use zig_boot.Machine.{Machine, perform}
use zig_boot.Apic.{
  in_x2apic, register_address, apic_read, apic_write, icr_loop, apic_wait_icr, send_ipi,
}
use zig_boot.Apic.Events.{
  ipi, high_half, events, Emits, Emits-refl, Emits-trans, perform-Emits, write-Emits,
  apic_read-Emits,
}

icr_loop-Emits : (n : ℕ) (m : Machine) → Emits m (icr_loop n m) []
unfolding icr_loop
icr_loop-Emits zero m = apic_read-Emits 0x300 m
icr_loop-Emits (suc n) m =
    let (t, low) = apic_read 0x300 m in
    elim (Bool-cases (bit_and low (2 ^ 12) == 0)) [
      | inl idle ↦ rw idle (apic_read-Emits 0x300 m)
      | inr busy ↦ rw busy (
          Emits-trans (Emits-trans (apic_read-Emits 0x300 m) (perform-Emits (pauses 1) t tt))
            (icr_loop-Emits n (perform (pauses 1) t)))
    ]

pub apic_wait_icr-Emits : (m : Machine) → Emits m (apic_wait_icr m) []
unfolding apic_wait_icr
apic_wait_icr-Emits m = elim (Bool-cases (in_x2apic m)) [
  | inl x2 ↦ rw x2 (Emits-refl m)
  | inr x ↦ rw x (icr_loop-Emits 1000000 m)
]

-- The command in the one register of x2APIC mode, and in the two halves of xAPIC mode.
msr_event :
    (apic_id flags base : ℕ) (l : List Access)
    → flags < 2 ^ 32
    → events true base (wrmsr 0x830 (apic_id * 2 ^ 32 + flags) ∷ l)
      ≡ ipi apic_id flags ∷ events true base l
unfolding events
msr_event apic_id flags base l h =
    let to : (apic_id * 2 ^ 32 + flags) / 2 ^ 32 ≡ apic_id = omega arith in
    let low : (apic_id * 2 ^ 32 + flags) % 2 ^ 32 ≡ flags = omega arith in rw (to, low) refl

halves_event :
    (high flags base : ℕ) (l : List Access)
    → events false base (mmio_write (base + 0x300) flags ∷ mmio_write (base + 0x310) high ∷ l)
      ≡ ipi (high / 2 ^ 24) flags ∷ events false base l
unfolding events high_half
halves_event high flags base l =
    let after : leb base (base + 0x300) ≡ true = ground arith in
    let after' : leb base (base + 0x310) ≡ true = ground arith in
    let low : (base + 0x300 == base + 0x300) ≡ true = ground arith in
    let not_high : (base + 0x300 == base + 0x310) ≡ false = ground arith in
    let is_high : (base + 0x310 == base + 0x310) ≡ true = ground arith in
    rw (after, after', low, not_high, is_high) refl

-- In xAPIC mode a register is written in memory.
xapic_write :
    (reg value : ℕ) (m : Machine)
    → in_x2apic m ≡ false
    → apic_write reg value m ≡ perform (mmio_write (register_address reg m) value) m
unfolding apic_write
xapic_write reg value m x = rw x refl

halves-Emits :
    (high flags : ℕ) (m : Machine)
    → in_x2apic m ≡ false
    → Emits m (apic_write 0x300 flags (apic_write 0x310 high m)) (ipi (high / 2 ^ 24) flags ∷ [])
unfolding Device.perform
halves-Emits high flags m x =
    let l = m.device.log in
    let m1 = perform (mmio_write (register_address 0x310 m) high) m in
    subst (λ t. Emits m (apic_write 0x300 flags t) (ipi (high / 2 ^ 24) flags ∷ []))
      (sym (xapic_write 0x310 high m x))
      (subst (λ t. Emits m t (ipi (high / 2 ^ 24) flags ∷ [])) (sym (xapic_write 0x300 flags m1 x))
        (record {
          mode = refl;
          base = refl;
          symbols = refl;
          ids = refl;
          count = refl;
          told =
              subst
                (λ b.
                  events b m.apic_base (
                    mmio_write (m.apic_base + 0x300) flags
                    ∷ mmio_write (m.apic_base + 0x310) high
                    ∷ l)
                  ≡ ipi (high / 2 ^ 24) flags ∷ events b m.apic_base l)
                (sym x) (halves_event high flags m.apic_base l);
        }))

-- In either mode the interrupt goes to the processor `apic_id`, below 256, with the flags, of 32
-- bits, and nothing else is told to the APIC.
pub send_ipi-Emits :
    (apic_id flags : ℕ) (m : Machine)
    → apic_id < 256
    → flags < 2 ^ 32
    → Emits m (send_ipi apic_id flags m) (ipi apic_id flags ∷ [])
unfolding send_ipi
send_ipi-Emits apic_id flags m h l = elim (Bool-cases (in_x2apic m)) [
  | inl x2 ↦
      let fits : u64 (apic_id * 2 ^ 32) ≡ apic_id * 2 ^ 32 = omega arith in
      rw (x2, fits, bit_or_apart 32 apic_id flags l)
        (write-Emits _ m _ true x2 (msr_event apic_id flags m.apic_base m.device.log l))
  | inr x ↦
      let m1 = apic_wait_icr m in
      let idle = apic_wait_icr-Emits m in
      let high = u32 (apic_id * 2 ^ 24) in
      let back : high / 2 ^ 24 ≡ apic_id = omega arith in
      let sent = halves-Emits high flags m1 (ap (λ v. not (v == 0)) idle.mode ∙ x) in
      let m2 = apic_write 0x300 flags (apic_write 0x310 high m1) in
      rw x (
        Emits-trans (Emits-trans idle (subst (λ i. Emits m1 m2 (ipi i flags ∷ [])) back sent))
          (apic_wait_icr-Emits m2))
]
