-- ===== src/Apic/Timer.antt =====
-- The timer is set up the same way in both modes.
use zig_boot.Prelude.{ℕ, inl, inr, arith, Bool-cases, [], ◌∷◌, Array}
use zig_boot.Device.{rdmsr, mmio_read}
use zig_boot.Machine.{Machine}
use zig_boot.Apic.{
  in_x2apic, register_msr, register_address, write_timer, debug_timer, lvt_timer, apic_timer_init,
}
use zig_boot.Apic.Events.{setting, Emits, Emits-trans, IsSetting, read-Emits, msr-Emits, mmio-Emits}

write_timer-Emits :
    (reg value : ℕ) (m : Machine)
    → IsSetting reg
    → Emits m (write_timer reg value m) (setting reg value ∷ [])
unfolding write_timer
write_timer-Emits reg value m s = elim (Bool-cases (in_x2apic m)) [
  | inl x2 ↦ rw x2 (msr-Emits reg value m x2 s)
  | inr x ↦ rw x (mmio-Emits reg value m x s)
]

debug_timer-Emits : (i reg : ℕ) (m : Machine) → Emits m (debug_timer i reg m) []
unfolding debug_timer
debug_timer-Emits i reg m = elim (Bool-cases (in_x2apic m)) [
  | inl x2 ↦ rw x2 (keep (read-Emits (rdmsr (register_msr reg)) m tt))
  | inr x ↦ rw x (keep (read-Emits (mmio_read (register_address reg m)) m tt))
]
  where
    keep : {t : Machine} {a : Array} → Emits m t [] → Emits m (record t { timer_init_debug = a }) []
    keep e = record {
      mode = e.mode;
      base = e.base;
      symbols = e.symbols;
      ids = e.ids;
      count = e.count;
      told = e.told;
    }

-- In either mode the timer is told, in this order, to divide by 16, to run periodically with vector
-- 32 and unmasked, and to count down from 10,000,000.
pub apic_timer_init-Emits :
    (m : Machine)
    → Emits m
        (apic_timer_init m)
        (setting 0x380 10000000 ∷ setting 0x320 0x20020 ∷ setting 0x3E0 3 ∷ [])
unfolding apic_timer_init
apic_timer_init-Emits m =
    let m1 = write_timer 0x3E0 3 m in
    let m2 = debug_timer 0 0x320 (debug_timer 2 0x3E0 m1) in
    let m3 = write_timer 0x320 lvt_timer m2 in
    let m4 = debug_timer 1 0x320 m3 in
    let m5 = write_timer 0x380 10000000 m4 in
    let divided =
      Emits-trans
        (Emits-trans (write_timer-Emits 0x3E0 3 m (omega arith)) (debug_timer-Emits 2 0x3E0 m1))
        (debug_timer-Emits 0 0x320 (debug_timer 2 0x3E0 m1)) in
    let unmasked =
      Emits-trans (Emits-trans divided (write_timer-Emits 0x320 lvt_timer m2 (omega arith)))
        (debug_timer-Emits 1 0x320 m3) in
    Emits-trans (Emits-trans unmasked (write_timer-Emits 0x380 10000000 m4 (omega arith)))
      (debug_timer-Emits 3 0x380 m5)
