-- ===== src/Interrupts/Ticks.antt =====
-- Whose timer interrupts are counted, and that each of them is acknowledged.
use zig_boot.Prelude.{
  ℕ, ◌+◌, ◌/◌, ◌%◌, ◌^◌, ◌<◌, ◌≤◌, ◌≡◌, ◌≢◌, ◌⊎◌, ◌∙◌, refl, ap, inl, inr, ltb, if◌then◌else◌,
  Bool-cases, u64, Array, store, [], ◌∷◌, arith, true, false, ◌==◌,
}
use zig_boot.Device as Device
use zig_boot.Device.{rdmsr, mmio_read}
use zig_boot.Machine.{Machine}
use zig_boot.Apic.{in_x2apic, apic_read, apic_write, send_eoi}
use zig_boot.Apic.Events.{Emits, Emits-trans, setting, read-Emits, apic_read-Emits, send_eoi-Emits}
use zig_boot.Acpi.{max_cpus}
use zig_boot.Interrupts.{current_apic_id, count_tick, timer_interrupt_handler}

-- The processor's number is read, and nothing is told to the APIC.
current_apic_id-Emits : (m : Machine) → Emits m (current_apic_id m).0 []
unfolding current_apic_id
current_apic_id-Emits m = elim (Bool-cases (in_x2apic m)) [
  | inl x2 ↦ rw x2 (read-Emits (rdmsr 0x802) m tt)
  | inr x ↦ rw x (apic_read-Emits 0x20 m)
]

-- What reading the number and the end of the interrupt leave: the counters.
IsCounted : Machine → Array → ℕ → Type 0
IsCounted m ticks calls = (m.timer_ticks ≡ ticks) × (m.global_timer_calls ≡ calls)

current_apic_id-IsCounted :
    (m : Machine) → IsCounted (current_apic_id m).0 m.timer_ticks m.global_timer_calls
unfolding current_apic_id apic_read IsCounted
current_apic_id-IsCounted m = elim (Bool-cases (in_x2apic m)) [
  | inl x2 ↦ rw x2 (refl, refl)
  | inr x ↦ rw x (refl, refl)
]

send_eoi-IsCounted : (m : Machine) → IsCounted (send_eoi m) m.timer_ticks m.global_timer_calls
unfolding send_eoi apic_write IsCounted
send_eoi-IsCounted m = elim (Bool-cases (in_x2apic m)) [
  | inl x2 ↦ rw x2 (refl, refl)
  | inr x ↦ rw x (refl, refl)
]

count_tick-Emits : (id : ℕ) (m : Machine) → Emits m (count_tick id m) []
unfolding count_tick
count_tick-Emits id m = elim (Bool-cases (ltb id max_cpus)) [
  | inl lt ↦
      rw lt
        (record { mode = refl; base = refl; symbols = refl; ids = refl; count = refl; told = refl })
  | inr ge ↦
      rw ge
        (record { mode = refl; base = refl; symbols = refl; ids = refl; count = refl; told = refl })
]

-- The counters after a tick of the processor `id`: processors from 16 on have none.
abbrev ticked : ℕ → Array → Array
ticked id ticks = if ltb id 16 then store ticks id (u64 (ticks id + 1)) else ticks

count_tick-IsCounted :
    (id : ℕ) (m : Machine)
    → IsCounted (count_tick id m) (ticked id m.timer_ticks) m.global_timer_calls
unfolding count_tick IsCounted
count_tick-IsCounted id m = elim (Bool-cases (ltb id max_cpus)) [
  | inl lt ↦ rw lt (refl, refl)
  | inr ge ↦ rw ge (refl, refl)
]

-- The number that the APIC gives for the processor, when it is asked after the accesses so far: in x2APIC
-- mode all 32 bits of the register 0x802, in xAPIC mode the top 8 of those at 0x20 from its base.
abbrev pub apic_number : Machine → ℕ
apic_number m =
    if m.use_x2apic == 0
    then m.device.reply (mmio_read (m.apic_base + 0x20) ∷ m.device.log) % 2 ^ 32 / 2 ^ 24
    else m.device.reply (rdmsr 0x802 ∷ m.device.log) % 2 ^ 32

current_apic_id-apic_number : (m : Machine) → (current_apic_id m).1 ≡ apic_number m
unfolding current_apic_id apic_read Device.read
current_apic_id-apic_number m = elim (Bool-cases (m.use_x2apic == 0)) [
  | inl x ↦ rw x refl
  | inr x2 ↦ rw x2 refl
]

ticked-own : (id : ℕ) (ticks : Array) → id < 16 → ticked id ticks id ≡ u64 (ticks id + 1)
ticked-own id ticks h =
    let inside : ltb id 16 ≡ true = ground arith in
    let same : (id == id) ≡ true = ground arith in rw (inside, same) refl

ticked-other : (id i : ℕ) (ticks : Array) → (i ≢ id) ⊎ (16 ≤ i) → ticked id ticks i ≡ ticks i
ticked-other id i ticks h = elim (Bool-cases (ltb id 16)) [
  | inl lt ↦ let other : (id == i) ≡ false = ground arith in rw (lt, other) refl
  | inr ge ↦ rw ge refl
]

-- Each timer interrupt counts one call; the processor whose number the APIC gives gets one tick more,
-- modulo 2 ^ 64, if its number is below 16, and the ticks of every other one, and all from 16 on, stay as
-- they are; the APIC is told of the end of the interrupt, once, and of nothing else.
pub timer_interrupt_handler_lem :
    (m : Machine)
    → let t = timer_interrupt_handler m in
      let id = apic_number m in
      (id < 16 → t.timer_ticks id ≡ (m.timer_ticks id + 1) % 2 ^ 64)
      × ((i : ℕ) → (i ≢ id) ⊎ (16 ≤ i) → t.timer_ticks i ≡ m.timer_ticks i)
      × (t.global_timer_calls ≡ u64 (m.global_timer_calls + 1))
      × Emits m t (setting 0xB0 0 ∷ [])
unfolding timer_interrupt_handler IsCounted
timer_interrupt_handler_lem m =
    let m1 = record m { global_timer_calls = u64 (m.global_timer_calls + 1) } in
    let (m2, id) = current_apic_id m1 in
    let m3 = count_tick id m2 in
    let (read_ticks, read_calls) = current_apic_id-IsCounted m1 in
    let (ticks, calls) = count_tick-IsCounted id m2 in
    let (end_ticks, end_calls) = send_eoi-IsCounted m3 in
    let called : Emits m m1 [] = record {
      mode = refl;
      base = refl;
      symbols = refl;
      ids = refl;
      count = refl;
      told = refl;
    } in
    let all : (timer_interrupt_handler m).timer_ticks ≡ ticked (apic_number m) m.timer_ticks =
      end_ticks
      ∙ ticks
      ∙ ap (ticked id) read_ticks
      ∙ ap (λ n. ticked n m.timer_ticks) (current_apic_id-apic_number m1) in
    (
      λ h. ap (λ ts. ts (apic_number m)) all ∙ ticked-own (apic_number m) m.timer_ticks h,
      λ i h. ap (λ ts. ts i) all ∙ ticked-other (apic_number m) i m.timer_ticks h,
      end_calls ∙ calls ∙ read_calls,
      Emits-trans
          (Emits-trans (Emits-trans called (current_apic_id-Emits m1)) (count_tick-Emits id m2))
          (send_eoi-Emits m3),
    )
